-- ===== src/Compiler/Emit.antt =====
-- src/compiler/mod.rs: emission, constants, patterns and jumps. A `u8` or `u16` is a number with its
-- wrap-around written out.
use y.Prelude.{
  ℕ, suc, ◌+◌, ◌/◌, ◌%◌, ◌==◌, ltb, if◌then◌else◌, same_text, Bool, false, List, [], ◌∷◌, ◌++◌,
  Option, none, some, length, set,
}
use y.Source.{Span, span_at, zero_pos}
use y.Ast.Tree.{Pattern}
use y.Vm.Chunk.{OpCode, as_u8, write_u16, loop_op}
use y.Compiler.State.{
  Const, int, decimal, str, variant, FuncCtx, too_many_constants, too_many_patterns, out_of_range,
  Compile, ◌>>=◌, ◌>>◌, pure, panic, current, update,
}

-- `Span::dummy()`.
abbrev pub dummy : Span
dummy = span_at zero_pos

abbrev pub as_byte : ℕ → ℕ
as_byte n = n % 256

abbrev pub as_word : ℕ → ℕ
as_word n = n % 65536

-- Bytes and as many spans.
abbrev pub dummies : List ℕ → List Span
dummies [] = []
dummies (b ∷ bs) = dummy ∷ dummies bs

module _ {D : Type 0} where
  abbrev pub push_bytes : List ℕ → FuncCtx D → FuncCtx D
  push_bytes bytes f = record f { code = f.code ++ bytes; spans = f.spans ++ dummies bytes }

  unfoldable pub emit_bytes : List ℕ → Compile D (Unit {0})
  emit_bytes bytes = update (push_bytes bytes)

  unfoldable pub emit_op : OpCode → Compile D (Unit {0})
  emit_op op = emit_bytes (as_u8 op ∷ [])

  unfoldable pub emit_u8 : ℕ → Compile D (Unit {0})
  emit_u8 v = emit_bytes (v ∷ [])

  unfoldable pub emit_u16 : ℕ → Compile D (Unit {0})
  emit_u16 v = emit_bytes (write_u16 [] v)

  unfoldable pub current_code_len : Compile D ℕ
  current_code_len = current (λ f. length f.code)

  -- Two bytes that are patched later, at the offset answered.
  unfoldable pub placeholder : Compile D ℕ
  placeholder = do offset ← current_code_len; emit_u16 0; pure offset

  unfoldable pub emit_jump : OpCode → Compile D ℕ
  emit_jump op = do emit_op op; placeholder

  abbrev pub patched : ℕ → ℕ → FuncCtx D → FuncCtx D
  patched offset value f = record f {
    code = set (set f.code offset (value % 256)) (offset + 1) (value / 256);
  }

  abbrev pub patch_within : ℕ → ℕ → Bool → Compile D (Unit {0})
  patch_within offset value in_range =
      if in_range then update (patched offset value) else panic out_of_range

  unfoldable pub patch_u16 : ℕ → ℕ → Compile D (Unit {0})
  patch_u16 offset value = do
    len ← current_code_len
    patch_within offset value (ltb (offset + 1) len)

  unfoldable pub patch_jump : ℕ → Compile D (Unit {0})
  patch_jump offset = do target ← current_code_len; patch_u16 offset (as_word target)

  unfoldable pub emit_loop : ℕ → Compile D (Unit {0})
  emit_loop loop_start = do emit_op loop_op; emit_u16 (as_word loop_start)

  -- A new `Rc` is equal to none that is stored, so that no pattern is shared.
  abbrev pub add_to_patterns : Pattern D → ℕ → Compile D ℕ
  add_to_patterns pattern idx =
      if ltb 255 idx
      then panic too_many_patterns
      else do update (λ f. record f { patterns = f.patterns ++ pattern ∷ [] }); pure (as_byte idx)

  unfoldable pub add_pattern : Pattern D → Compile D ℕ
  add_pattern pattern = do idx ← current (λ f. length f.patterns); add_to_patterns pattern idx

-- `same_decimal` is the equality of BigDecimal.
module _ {D : Type 0} (same_decimal : D → D → Bool) where
  unfoldable pub same_const : Const D → Const D → Bool
  same_const (int m) (int n) = m == n
  same_const (decimal d) (decimal e) = same_decimal d e
  same_const (str s) (str t) = same_text s t
  same_const (variant s) (variant t) = same_text s t
  same_const _ _ = false

  -- The first constant that is equal, counted from `i`.
  unfoldable pub find_const : Const D → ℕ → List (Const D) → Option ℕ
  find_const v i [] = none
  find_const v i (c ∷ cs) = if same_const c v then some i else find_const v (suc i) cs

  abbrev pub add_const : Const D → ℕ → Compile D ℕ
  add_const v idx =
      if ltb 255 idx
      then panic too_many_constants
      else do update (λ f. record f { consts = f.consts ++ v ∷ [] }); pure (as_byte idx)

  abbrev pub found_or_add : Const D → ℕ → Option ℕ → Compile D ℕ
  found_or_add v idx none = add_const v idx
  found_or_add v idx (some i) = pure (as_byte i)

  unfoldable pub emit_const : Const D → Compile D ℕ
  emit_const v = do
    found ← current (λ f. find_const v 0 f.consts)
    idx ← current (λ f. length f.consts)
    found_or_add v idx found
