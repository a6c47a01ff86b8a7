-- ===== src/Vm/Chunk.antt =====
-- src/vm/chunk.rs: the opcodes, their operands' widths and the encoding of 16-bit operands, and
-- `opcode_from_u8` of src/vm/vm.rs. A byte is a number below 256. `none` is a byte that is no opcode,
-- and in `read_u16` the panic of an index out of range.
use y.Prelude.{
  ℕ, ◌+◌, ◌*◌, ◌/◌, ◌%◌, List, [], ◌∷◌, ◌++◌, Option, none, some, get_elem?, if◌then◌else◌, ltb,
}

pub data OpCode : Type 0 where
  nil_op true_op false_op const_op load_local_op store_local_op load_upvalue_op : OpCode
  store_upvalue_op load_global_op store_global_op define_global_op load_local_ref_op : OpCode
  load_upvalue_ref_op load_global_ref_op pop_op pop_n_op pop_local_keep_op dup_op new_vec_op :
      OpCode
  new_map_op new_set_op add_op sub_op mul_op div_op mod_op neg_op not_op eq_op neq_op lt_op : OpCode
  gt_op lte_op gte_op jump_op jump_if_false_op jump_if_true_op loop_op closure_op call_op : OpCode
  method_call_op construct_variant_op construct_struct_op return_op assign_local_op : OpCode
  assign_upvalue_op assign_global_op index_op index_assign_op field_op field_assign_op : OpCode
  match_op break_op continue_op return_signal_op retry_op raise_op push_try_op pop_try_op : OpCode
  rescue_match_op ensure_exit_op clear_pending_op shared_expr_op push_transact_op : OpCode
  transact_commit_op yield_op reply_op await_op spawn_op actor_send_op actor_request_op : OpCode
  define_actor_op register_handler_op import_op swap_op rot3_op push_loop_op pop_loop_op : OpCode
  end_op : OpCode

-- `op as u8`: the discriminants count from 0 in the order of declaration.
unfoldable pub as_u8 : OpCode → ℕ
as_u8 nil_op = 0
as_u8 true_op = 1
as_u8 false_op = 2
as_u8 const_op = 3
as_u8 load_local_op = 4
as_u8 store_local_op = 5
as_u8 load_upvalue_op = 6
as_u8 store_upvalue_op = 7
as_u8 load_global_op = 8
as_u8 store_global_op = 9
as_u8 define_global_op = 10
as_u8 load_local_ref_op = 11
as_u8 load_upvalue_ref_op = 12
as_u8 load_global_ref_op = 13
as_u8 pop_op = 14
as_u8 pop_n_op = 15
as_u8 pop_local_keep_op = 16
as_u8 dup_op = 17
as_u8 new_vec_op = 18
as_u8 new_map_op = 19
as_u8 new_set_op = 20
as_u8 add_op = 21
as_u8 sub_op = 22
as_u8 mul_op = 23
as_u8 div_op = 24
as_u8 mod_op = 25
as_u8 neg_op = 26
as_u8 not_op = 27
as_u8 eq_op = 28
as_u8 neq_op = 29
as_u8 lt_op = 30
as_u8 gt_op = 31
as_u8 lte_op = 32
as_u8 gte_op = 33
as_u8 jump_op = 34
as_u8 jump_if_false_op = 35
as_u8 jump_if_true_op = 36
as_u8 loop_op = 37
as_u8 closure_op = 38
as_u8 call_op = 39
as_u8 method_call_op = 40
as_u8 construct_variant_op = 41
as_u8 construct_struct_op = 42
as_u8 return_op = 43
as_u8 assign_local_op = 44
as_u8 assign_upvalue_op = 45
as_u8 assign_global_op = 46
as_u8 index_op = 47
as_u8 index_assign_op = 48
as_u8 field_op = 49
as_u8 field_assign_op = 50
as_u8 match_op = 51
as_u8 break_op = 52
as_u8 continue_op = 53
as_u8 return_signal_op = 54
as_u8 retry_op = 55
as_u8 raise_op = 56
as_u8 push_try_op = 57
as_u8 pop_try_op = 58
as_u8 rescue_match_op = 59
as_u8 ensure_exit_op = 60
as_u8 clear_pending_op = 61
as_u8 shared_expr_op = 62
as_u8 push_transact_op = 63
as_u8 transact_commit_op = 64
as_u8 yield_op = 65
as_u8 reply_op = 66
as_u8 await_op = 67
as_u8 spawn_op = 68
as_u8 actor_send_op = 69
as_u8 actor_request_op = 70
as_u8 define_actor_op = 71
as_u8 register_handler_op = 72
as_u8 import_op = 73
as_u8 swap_op = 74
as_u8 rot3_op = 75
as_u8 push_loop_op = 76
as_u8 pop_loop_op = 77
as_u8 end_op = 78

-- The opcodes in the order of declaration.
abbrev pub declared : List OpCode
declared =
    nil_op ∷ true_op ∷ false_op ∷ const_op ∷ load_local_op ∷ store_local_op ∷ load_upvalue_op
    ∷ store_upvalue_op ∷ load_global_op ∷ store_global_op ∷ define_global_op ∷ load_local_ref_op
    ∷ load_upvalue_ref_op ∷ load_global_ref_op ∷ pop_op ∷ pop_n_op ∷ pop_local_keep_op ∷ dup_op
    ∷ new_vec_op ∷ new_map_op ∷ new_set_op ∷ add_op ∷ sub_op ∷ mul_op ∷ div_op ∷ mod_op ∷ neg_op
    ∷ not_op ∷ eq_op ∷ neq_op ∷ lt_op ∷ gt_op ∷ lte_op ∷ gte_op ∷ jump_op ∷ jump_if_false_op
    ∷ jump_if_true_op ∷ loop_op ∷ closure_op ∷ call_op ∷ method_call_op ∷ construct_variant_op
    ∷ construct_struct_op ∷ return_op ∷ assign_local_op ∷ assign_upvalue_op ∷ assign_global_op
    ∷ index_op ∷ index_assign_op ∷ field_op ∷ field_assign_op ∷ match_op ∷ break_op ∷ continue_op
    ∷ return_signal_op ∷ retry_op ∷ raise_op ∷ push_try_op ∷ pop_try_op ∷ rescue_match_op
    ∷ ensure_exit_op ∷ clear_pending_op ∷ shared_expr_op ∷ push_transact_op ∷ transact_commit_op
    ∷ yield_op ∷ reply_op ∷ await_op ∷ spawn_op ∷ actor_send_op ∷ actor_request_op ∷ define_actor_op
    ∷ register_handler_op ∷ import_op ∷ swap_op ∷ rot3_op ∷ push_loop_op ∷ pop_loop_op ∷ end_op ∷ []

-- The bounds check, and the reading of the byte as a discriminant.
unfoldable pub opcode_from_u8 : ℕ → Option OpCode
opcode_from_u8 b = if ltb b (as_u8 end_op) then get_elem? declared b else none

unfoldable pub operand_bytes : OpCode → ℕ
operand_bytes nil_op = 0
operand_bytes true_op = 0
operand_bytes false_op = 0
operand_bytes const_op = 1
operand_bytes load_local_op = 1
operand_bytes store_local_op = 1
operand_bytes load_upvalue_op = 1
operand_bytes store_upvalue_op = 1
operand_bytes load_global_op = 1
operand_bytes store_global_op = 1
operand_bytes define_global_op = 1
operand_bytes load_local_ref_op = 1
operand_bytes load_upvalue_ref_op = 1
operand_bytes load_global_ref_op = 1
operand_bytes pop_op = 0
operand_bytes pop_n_op = 1
operand_bytes pop_local_keep_op = 1
operand_bytes dup_op = 0
operand_bytes new_vec_op = 1
operand_bytes new_map_op = 1
operand_bytes new_set_op = 1
operand_bytes add_op = 0
operand_bytes sub_op = 0
operand_bytes mul_op = 0
operand_bytes div_op = 0
operand_bytes mod_op = 0
operand_bytes neg_op = 0
operand_bytes not_op = 0
operand_bytes eq_op = 0
operand_bytes neq_op = 0
operand_bytes lt_op = 0
operand_bytes gt_op = 0
operand_bytes lte_op = 0
operand_bytes gte_op = 0
operand_bytes jump_op = 2
operand_bytes jump_if_false_op = 2
operand_bytes jump_if_true_op = 2
operand_bytes loop_op = 2
operand_bytes closure_op = 1
operand_bytes call_op = 1
operand_bytes method_call_op = 2
operand_bytes construct_variant_op = 2
operand_bytes construct_struct_op = 2
operand_bytes return_op = 0
operand_bytes assign_local_op = 1
operand_bytes assign_upvalue_op = 1
operand_bytes assign_global_op = 1
operand_bytes index_op = 0
operand_bytes index_assign_op = 0
operand_bytes field_op = 1
operand_bytes field_assign_op = 1
operand_bytes match_op = 1
operand_bytes break_op = 2
operand_bytes continue_op = 2
operand_bytes return_signal_op = 2
operand_bytes retry_op = 0
operand_bytes raise_op = 0
operand_bytes push_try_op = 4
operand_bytes pop_try_op = 0
operand_bytes rescue_match_op = 1
operand_bytes ensure_exit_op = 0
operand_bytes clear_pending_op = 0
operand_bytes shared_expr_op = 0
operand_bytes push_transact_op = 2
operand_bytes transact_commit_op = 0
operand_bytes yield_op = 0
operand_bytes reply_op = 2
operand_bytes await_op = 0
operand_bytes spawn_op = 2
operand_bytes actor_send_op = 0
operand_bytes actor_request_op = 0
operand_bytes define_actor_op = 2
operand_bytes register_handler_op = 1
operand_bytes import_op = 3
operand_bytes swap_op = 0
operand_bytes rot3_op = 0
operand_bytes push_loop_op = 4
operand_bytes pop_loop_op = 0
operand_bytes end_op = 0

-- `buf.push((v & 0xff) as u8); buf.push((v >> 8) as u8)`.
unfoldable pub write_u16 : List ℕ → ℕ → List ℕ
write_u16 buf v = buf ++ v % 256 ∷ v / 256 % 256 ∷ []

abbrev combine : Option ℕ → Option ℕ → ℕ → Option (ℕ × ℕ)
combine (some lo) (some hi) ip = some (lo + hi * 256, ip + 2)
combine _ _ ip = none

-- The number and the new instruction pointer. The `|` of two bytes without a common bit is their sum.
unfoldable pub read_u16 : List ℕ → ℕ → Option (ℕ × ℕ)
read_u16 code ip = combine (get_elem? code ip) (get_elem? code (ip + 1)) ip
