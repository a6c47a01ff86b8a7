-- ===== src/Lib.antt =====
-- A verification of the core of the 1y language implementation (Rust, under src/ of the
-- repository): the lexer and the parser, software transactional memory in both execution engines,
-- the tree-walking interpreter and the bytecode virtual machine, with the machine's closures and
-- its handling of control-flow signals; the scopes of the interpreter; the scheduler of
-- coroutines; and the registry of process ids.
--
-- The source text is a list of code points (`Text`). src/lexer/mod.rs turns it into tokens with
-- spans, which src/parser/mod.rs turns into the tree that the interpreter evaluates and the
-- compiler translates for the virtual machine. Both engines keep a stack of
-- transaction contexts over shared cells; the machine adds stacks of handlers.
--
-- Files:
--   Prelude       library names, tests on numbers, lists, maps, and the loop rule; no source.
--   Source        src/ast/span.rs: Pos, Pos::advance, Span, Span::union.
--   Lexer/Token   src/lexer/token.rs: TokenKind, Keyword, from_ident, as_str, describe.
--   Lexer/State   Lexer, bump, peek, peek2, error, tok of src/lexer/mod.rs, SourceError of src/error.rs.
--   Lexer/Scan    comments, runs of characters, digits, maybe_exponent.
--   Lexer/Number  lex_number.  Lexer/Escapes, Lexer/Strings: lex_string, lex_triple_string,
--                 lex_unicode_escape, collect_interpolation, skip_nested_string_into.
--   Lexer/Punct   the punctuation arms.  Lexer/Tokenize: next_token and tokenize.
--   Lexer/Cursor  the lookahead buffer (fill, peek, peek2, bump).
--   Lexer/Moves, ScanMoves, StringMoves, NextToken, Total, Located, Skipped, Keywords: proofs.
--   Stm           SharedCell of src/value.rs, TransactionContext, write_shared, read_shared and the
--                 loops of a commit in src/vm/vm.rs, the same in src/interpreter/mod.rs.
--   Stm/Walker    eval_transact and commit_txn of src/interpreter/mod.rs. The body is a function of
--                 the memory, in place of eval_expr.
--   Stm/Reads, Stm/Commit, Stm/Atomic: proofs.
--   Vm/Chunk      OpCode and the u16 encoding of src/vm/chunk.rs, opcode_from_u8 of src/vm/vm.rs.
--   Vm/Upvalue    src/vm/closure.rs, and the open upvalues of src/vm/vm.rs.
--   Vm/Machine    VmCtx and its handler stacks, cleanup_transact_above.
--   Vm/Transact   PushTransact, TransactCommit, and the Retry signal of handle_signal.
--   Vm/Unwind     the rest of handle_signal, and return_from_frame.
--   Vm/Encoding, Capture, Balance, Retries, Commits, Rescue: proofs.
--   Env           Environment of src/interpreter/env.rs, the frames on a heap.  Env/Chain: proofs.
--   Scheduler     src/runtime/scheduler.rs: the state and the small operations. Scheduler/Tick: tick.
--                 Scheduler/Drain: the ticks of drain_mailboxes_async of src/interpreter/mod.rs.
--   Scheduler/Moves, Conserved, Registered, Woken: proofs.
--   Ast/Types, Tree, Spans: src/ast/mod.rs.
--   Parser        src/parser/mod.rs, by parts of the grammar. Parser/State, Cursor: the Parser, its cursor
--                 and its loops. Parser/Annotations, Patterns, Strings, Operators (parse_expr), Primary
--                 (prefix, postfix, primary), Control, Braces, Blocks (recovery), Statements. Parser/Calls:
--                 the functions called further down. Parser/Run: parse.
--   Parser/Goes, Served, Recovery, *Goes, Total, Completes, Imports: proofs.
--   Registry      src/runtime/registry.rs, an operation is one step.  Registry/Pids: proofs.
--   Compiler      src/compiler/mod.rs over the whole tree. Compiler/State: FuncCtx, Compiler, Chunk of
--                 src/vm/chunk.rs. Compiler/Emit: code, constants, jumps. Scope: locals and
--                 upvalues. Names: the names of patterns. Forms, Terms, Flow, ForLoop, Rescue: the
--                 code of each form around that of its parts. Compile: compile_expr, compile_stmt, compile_program.
--   Compiler/Kept, *Kept, Ends, Upvalues: proofs.
--   */Examples    runs on concrete inputs.
--
-- Bounds and fuel. The lexer's loops run on fuel one above the number of characters left: each
-- round of next_token, of a string and of tokenize consumes a character or ends. The loop on an
-- exception has fuel one above the handlers and frames left, since each round drops one. A walk up
-- the scopes has fuel one above its first address, since a parent is older than its child.
-- Positions wrap around as u32, versions and process ids as u64. The depths of nested comments and
-- interpolations are not wrapped: they are at most the length of the source, which would have to
-- reach 2 GiB. The loop over the timers has fuel one above their number, since a timer polled in
-- vain is put off beyond the clock. The parser has fuel one above the number of tokens behind the
-- first one: a function that another calls further down gets one less, and stands behind at least
-- one token more. Offsets (usize) and retry counts (at most 64) need no bound.
--
-- Parameters: BigDecimal, BigInt's parser and the Unicode classes of characters (`Library`,
-- `ParserLibrary`), the plain values `P` of the memory, the value of nil; the equality of BigDecimal (`same_decimal`); the coroutines, the poll
-- functions of tasks, the clock and the wait for events (`System`).
--
-- Not modelled: the printer, evaluator, the other opcodes, operators, actors, builtins
-- and the standard modules. A panic of the machine is the outcome `panic` or `none`.
pub mod Prelude
pub mod Source
pub mod Lexer
pub mod Stm
pub mod Vm
pub mod Env
pub mod Scheduler
pub mod Ast
pub mod Parser
pub mod Registry
pub mod Compiler
