-- ===== src/Vm/Encoding.antt =====
-- Opcodes and 16-bit operands are read back as they were written.
use y.Prelude.{
  ℕ, zero, suc, ◌+◌, ◌*◌, ◌/◌, ◌%◌, ◌<◌, List, [], ◌∷◌, ◌++◌, some, get_elem?, length, ltb, ltb→lt,
  ap, ◌==◌, ◌&&◌, ◌^◌, Bool, true, ◌≡◌, ◌≢◌, ◌↔◌, refl, arith, if_cases,
}
use y.Vm.Chunk.{
  OpCode, as_u8, declared, opcode_from_u8, write_u16, read_u16, nil_op, true_op, false_op, const_op,
  load_local_op, store_local_op, load_upvalue_op, store_upvalue_op, load_global_op, store_global_op,
  define_global_op, load_local_ref_op, load_upvalue_ref_op, load_global_ref_op, pop_op, pop_n_op,
  pop_local_keep_op, dup_op, new_vec_op, new_map_op, new_set_op, add_op, sub_op, mul_op, div_op,
  mod_op, neg_op, not_op, eq_op, neq_op, lt_op, gt_op, lte_op, gte_op, jump_op, jump_if_false_op,
  jump_if_true_op, loop_op, closure_op, call_op, method_call_op, construct_variant_op,
  construct_struct_op, return_op, assign_local_op, assign_upvalue_op, assign_global_op, index_op,
  index_assign_op, field_op, field_assign_op, match_op, break_op, continue_op, return_signal_op,
  retry_op, raise_op, push_try_op, pop_try_op, rescue_match_op, ensure_exit_op, clear_pending_op,
  shared_expr_op, push_transact_op, transact_commit_op, yield_op, reply_op, await_op, spawn_op,
  actor_send_op, actor_request_op, define_actor_op, register_handler_op, import_op, swap_op,
  rot3_op, push_loop_op, pop_loop_op, end_op,
}

from_u8-as_u8 : (op : OpCode) → op ≢ end_op → opcode_from_u8 (as_u8 op) ≡ some op
unfolding opcode_from_u8 as_u8
from_u8-as_u8 nil_op n = refl
from_u8-as_u8 true_op n = refl
from_u8-as_u8 false_op n = refl
from_u8-as_u8 const_op n = refl
from_u8-as_u8 load_local_op n = refl
from_u8-as_u8 store_local_op n = refl
from_u8-as_u8 load_upvalue_op n = refl
from_u8-as_u8 store_upvalue_op n = refl
from_u8-as_u8 load_global_op n = refl
from_u8-as_u8 store_global_op n = refl
from_u8-as_u8 define_global_op n = refl
from_u8-as_u8 load_local_ref_op n = refl
from_u8-as_u8 load_upvalue_ref_op n = refl
from_u8-as_u8 load_global_ref_op n = refl
from_u8-as_u8 pop_op n = refl
from_u8-as_u8 pop_n_op n = refl
from_u8-as_u8 pop_local_keep_op n = refl
from_u8-as_u8 dup_op n = refl
from_u8-as_u8 new_vec_op n = refl
from_u8-as_u8 new_map_op n = refl
from_u8-as_u8 new_set_op n = refl
from_u8-as_u8 add_op n = refl
from_u8-as_u8 sub_op n = refl
from_u8-as_u8 mul_op n = refl
from_u8-as_u8 div_op n = refl
from_u8-as_u8 mod_op n = refl
from_u8-as_u8 neg_op n = refl
from_u8-as_u8 not_op n = refl
from_u8-as_u8 eq_op n = refl
from_u8-as_u8 neq_op n = refl
from_u8-as_u8 lt_op n = refl
from_u8-as_u8 gt_op n = refl
from_u8-as_u8 lte_op n = refl
from_u8-as_u8 gte_op n = refl
from_u8-as_u8 jump_op n = refl
from_u8-as_u8 jump_if_false_op n = refl
from_u8-as_u8 jump_if_true_op n = refl
from_u8-as_u8 loop_op n = refl
from_u8-as_u8 closure_op n = refl
from_u8-as_u8 call_op n = refl
from_u8-as_u8 method_call_op n = refl
from_u8-as_u8 construct_variant_op n = refl
from_u8-as_u8 construct_struct_op n = refl
from_u8-as_u8 return_op n = refl
from_u8-as_u8 assign_local_op n = refl
from_u8-as_u8 assign_upvalue_op n = refl
from_u8-as_u8 assign_global_op n = refl
from_u8-as_u8 index_op n = refl
from_u8-as_u8 index_assign_op n = refl
from_u8-as_u8 field_op n = refl
from_u8-as_u8 field_assign_op n = refl
from_u8-as_u8 match_op n = refl
from_u8-as_u8 break_op n = refl
from_u8-as_u8 continue_op n = refl
from_u8-as_u8 return_signal_op n = refl
from_u8-as_u8 retry_op n = refl
from_u8-as_u8 raise_op n = refl
from_u8-as_u8 push_try_op n = refl
from_u8-as_u8 pop_try_op n = refl
from_u8-as_u8 rescue_match_op n = refl
from_u8-as_u8 ensure_exit_op n = refl
from_u8-as_u8 clear_pending_op n = refl
from_u8-as_u8 shared_expr_op n = refl
from_u8-as_u8 push_transact_op n = refl
from_u8-as_u8 transact_commit_op n = refl
from_u8-as_u8 yield_op n = refl
from_u8-as_u8 reply_op n = refl
from_u8-as_u8 await_op n = refl
from_u8-as_u8 spawn_op n = refl
from_u8-as_u8 actor_send_op n = refl
from_u8-as_u8 actor_request_op n = refl
from_u8-as_u8 define_actor_op n = refl
from_u8-as_u8 register_handler_op n = refl
from_u8-as_u8 import_op n = refl
from_u8-as_u8 swap_op n = refl
from_u8-as_u8 rot3_op n = refl
from_u8-as_u8 push_loop_op n = refl
from_u8-as_u8 pop_loop_op n = refl
from_u8-as_u8 end_op n = absurd (n refl)

-- The opcodes of a list are numbered from `n` on.
abbrev numbered : ℕ → List OpCode → Bool
numbered n [] = true
numbered n (op ∷ ops) = (as_u8 op == n) && numbered (suc n) ops

numbered-declared : numbered 0 declared ≡ true
unfolding as_u8
numbered-declared = refl

as_u8-get_elem? :
    (n : ℕ) (ops : List OpCode) (i : ℕ) (op : OpCode)
    → numbered n ops ≡ true
    → get_elem? ops i ≡ some op
    → as_u8 op ≡ n + i
as_u8-get_elem? n [] i op h e = absurd (ground arith)
as_u8-get_elem? n (o ∷ ops) zero op h e = ground arith
as_u8-get_elem? n (o ∷ ops) (suc i) op h e =
    let same = as_u8-get_elem? (suc n) ops i op (ground arith) e in omega (arith, same)

opcode_from_u8-decoded :
    (b : ℕ) (op : OpCode) → opcode_from_u8 b ≡ some op → (as_u8 op ≡ b) × (b < as_u8 end_op)
unfolding opcode_from_u8
opcode_from_u8-decoded b op =
    if_cases (λ o. o ≡ some op → (as_u8 op ≡ b) × (b < as_u8 end_op)) (ltb b (as_u8 end_op))
      (λ lt e. (
        omega (arith, as_u8-get_elem? 0 declared b op numbered-declared e),
        ltb→lt b (as_u8 end_op) lt,
      ))
      (λ ge e. absurd (ground arith))

-- A byte is decoded to an opcode exactly when it is that opcode's discriminant and the opcode is not
-- the sentinel.
pub opcode_from_u8_iff :
    (b : ℕ) (op : OpCode) → (opcode_from_u8 b ≡ some op) ↔ ((as_u8 op ≡ b) × (op ≢ end_op))
opcode_from_u8_iff b op = (
  λ e.
      let (same, lt) = opcode_from_u8-decoded b op e in
      (same, λ q. omega (arith, same, lt, ap as_u8 q)),
  λ h. rw (← h.0) (from_u8-as_u8 op h.1),
)

first_byte :
    (code rest : List ℕ) (lo hi : ℕ)
    → get_elem? ((code ++ lo ∷ hi ∷ []) ++ rest) (length code) ≡ some lo
first_byte [] rest lo hi = refl
first_byte (c ∷ code) rest lo hi = first_byte code rest lo hi

second_byte :
    (code rest : List ℕ) (lo hi : ℕ)
    → get_elem? ((code ++ lo ∷ hi ∷ []) ++ rest) (suc (length code)) ≡ some hi
second_byte [] rest lo hi = refl
second_byte (c ∷ code) rest lo hi = second_byte code rest lo hi

-- A 16-bit number written behind any code is read back from there, whatever follows it, and the
-- instruction pointer moves on by two.
pub read_u16-write_u16 :
    (code rest : List ℕ) (v : ℕ)
    → v < 2 ^ 16
    → read_u16 (write_u16 code v ++ rest) (length code) ≡ some (v, length code + 2)
unfolding read_u16 write_u16
read_u16-write_u16 code rest v h =
    let next : length code + 1 ≡ suc (length code) = omega arith in
    let whole : v % 256 + v / 256 % 256 * 256 ≡ v = omega arith in
    rw
      (
        next,
        first_byte code rest (v % 256) (v / 256 % 256),
        second_byte code rest (v % 256) (v / 256 % 256),
      )
      (ap (λ n. some (n, length code + 2)) whole)
