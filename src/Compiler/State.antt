-- ===== src/Compiler/State.antt =====
-- src/compiler/mod.rs: the state of the compiler, a stack of functions being compiled, and src/vm/chunk.rs:
-- chunks. The locals of a function are the latest first: the slot of a local is the number of those
-- behind it. The exception table of a chunk, which stays empty, is left out. No function of the
-- compiler makes an `InterpreterError`: each ends or panics.
use y.Prelude.{ℕ, Text, Bool, List, [], Option, some, codes}
use y.Source.{Span}
use y.Ast.Types.{BinOp}
use y.Ast.Tree.{Pattern}

-- The values that the compiler puts into a pool; a variant has no arguments.
pub data Const (D : Type 0) : Type 0 where
  int : ℕ → Const D
  decimal : D → Const D
  str : Text → Const D
  variant : Text → Const D

mutual
  -- The code, constants, spans, patterns, sub-chunks, arity, number of upvalues and name.
  pub data Chunk (D : Type 0) : Type 0 where
    chunk :
        List ℕ
        → List (Const D)
        → List Span
        → List (Pattern D)
        → Chunks D
        → ℕ
        → ℕ
        → Option Text
        → Chunk D

  -- The latest sub-chunk stands last.
  pub data Chunks (D : Type 0) : Type 0 where
    no_chunks : Chunks D
    chunk_after : Chunks D → Chunk D → Chunks D

abbrev pub count_chunks : {D : Type 0} → Chunks D → ℕ
count_chunks no_chunks = 0
count_chunks (chunk_after cs c) = ℕ.suc (count_chunks cs)

pub data FunctionType : Type 0 where
  script function : FunctionType

pub record Local : Type 0 where
  pub name : Text
  pub depth : ℕ
  pub is_captured : Bool

pub record UpvalueInfo : Type 0 where
  pub is_local : Bool
  pub index : ℕ

-- The chunk of a function that is being compiled is written out by its fields.
pub record FuncCtx (D : Type 0) : Type 0 where
  pub code : List ℕ
  pub consts : List (Const D)
  pub spans : List Span
  pub patterns : List (Pattern D)
  pub sub_chunks : Chunks D
  pub arity : ℕ
  pub upvalue_count : ℕ
  pub name : Option Text
  pub function_type : FunctionType
  pub scope_depth : ℕ
  pub locals : List Local
  pub upvalues : List UpvalueInfo

abbrev pub new_ctx : {D : Type 0} → FunctionType → Option Text → FuncCtx D
new_ctx kind name = record {
  code = [];
  consts = [];
  spans = [];
  patterns = [];
  sub_chunks = no_chunks;
  arity = 0;
  upvalue_count = 0;
  name = name;
  function_type = kind;
  scope_depth = 0;
  locals = [];
  upvalues = [];
}

-- The chunk of a function, `func_ctx.chunk`.
abbrev pub chunk_of : {D : Type 0} → FuncCtx D → Chunk D
chunk_of f = chunk f.code f.consts f.spans f.patterns f.sub_chunks f.arity f.upvalue_count f.name

-- `func_stack` is the current function and those around it, the innermost first. The tables hold
-- the arity of each variant, and the names of the structs.
pub record Compiler (D : Type 0) : Type 0 where
  pub current : FuncCtx D
  pub enclosing : List (FuncCtx D)
  pub variants : List (Text × ℕ)
  pub structs : List Text

-- `Compiler::new(FunctionType::Script)`, with the tables of the caller.
abbrev pub new_compiler : {D : Type 0} → List (Text × ℕ) → List Text → Compiler D
new_compiler variants structs = record {
  current = new_ctx script (some (codes "<script>"));
  enclosing = [];
  variants = variants;
  structs = structs;
}

-- The panics: a pool has more than 256 entries, `and` or `or` as the operator of a compound
-- assignment, an index out of range, and a stack of functions or a scope that is not there.
pub data Panic : Type 0 where
  too_many_constants too_many_patterns out_of_range no_function no_scope : Panic
  short_circuit : BinOp → Panic

-- A result, or a panic with the state it happens in.
pub data Outcome (D A : Type 0) : Type 0 where
  done : A → Compiler D → Outcome D A
  panicked : Panic → Compiler D → Outcome D A

abbrev pub Compile : Type 0 → Type 0 → Type 0
Compile D A = Compiler D → Outcome D A

module _ {D : Type 0} where
  abbrev pub and_then : {A B : Type 0} → Outcome D A → (A → Compile D B) → Outcome D B
  and_then (done a c) f = f a c
  and_then (panicked e c) f = panicked e c

  infixl 5 ◌>>=◌ ◌>>◌
  unfoldable pub ◌>>=◌ : {A B : Type 0} → Compile D A → (A → Compile D B) → Compile D B
  (m >>= f) c = and_then (m c) f

  abbrev pub ◌>>◌ : {A B : Type 0} → Compile D A → Compile D B → Compile D B
  m >> n = m >>= λ _. n

  unfoldable pub pure : {A : Type 0} → A → Compile D A
  pure a c = done a c

  unfoldable pub panic : {A : Type 0} → Panic → Compile D A
  panic e c = panicked e c

  -- What a function reads of the current function, and how it changes it.
  unfoldable pub current : {A : Type 0} → (FuncCtx D → A) → Compile D A
  current f c = done (f c.current) c

  unfoldable pub update : (FuncCtx D → FuncCtx D) → Compile D (Unit {0})
  update f c = done tt (record c { current = f c.current })

  unfoldable pub tables : {A : Type 0} → (Compiler D → A) → Compile D A
  tables f c = done (f c) c

  unfoldable pub set_tables : List (Text × ℕ) → List Text → Compile D (Unit {0})
  set_tables variants structs c = done tt (record c { variants = variants; structs = structs })
