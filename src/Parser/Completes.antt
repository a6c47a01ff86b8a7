-- ===== src/Parser/Completes.antt =====
-- src/parser/mod.rs: the parser of a file does not fail, and stops at the end of the file only.
use y.Prelude.{ℕ, zero, suc, ◌≡◌, refl, if_both, if_cases, Bool, true, List, [], Option, none, some}
use y.Prelude.Loop.{Round, again, finish}
use y.Lexer.Token.{TokenKind, eof, semicolon, r_brace}
use y.Ast.Tree.{Expr, Stmt}
use y.Parser.State.{Result, ok, err, Parser, ParserLibrary, Parse, pure, same_kind, and_then}
use y.Parser.Cursor.{◌>>=◌, bump, peek, push_error, repeat, rounds, next}
use y.Parser.Calls.{Calls}
use y.Parser.Blocks.{attempt, caught, resync, resync_of, resync_round, starts_stmt}
use y.Parser.Statements.{
  semicolon_round, keep_going, list_of, list_round, parse_stmt, parse_stmt_list,
}
use y.Parser.Goes.{IsPlain, IsEof, Good, free}
use y.Parser.Total.{parse_file-Good}
use y.Parser.Run.{parse_file}

-- A loop that cannot fail, whose results have a property of the state they leave.
module _ {D : Type 0} where
  abbrev Ends : {A : Type 0} → (A → Parser D → Type 0) → Option (Result A × Parser D) → Type 0
  Ends Q none = Unit
  Ends Q (some (ok a, q)) = Q a q
  Ends Q (some (err e, q)) = ⊥

  abbrev Leaves : {S A : Type 0} → (A → Parser D → Type 0) → Round S A → Parser D → Type 0
  Leaves Q (again s) q = Unit
  Leaves Q (finish a) q = Q a q

  next-Ends :
      {S A : Type 0} (Q : A → Parser D → Type 0) (go : S → Parse D A)
      (o : Option (Result (Round S A) × Parser D))
      → ((s : S) (q : Parser D) → Ends Q (go s q))
      → Ends (Leaves Q) o
      → Ends Q (and_then o (next go))
  unfolding pure
  next-Ends Q go none h e = tt
  next-Ends Q go (some (ok (again s), q)) h e = h s q
  next-Ends Q go (some (ok (finish a), q)) h e = e
  next-Ends Q go (some (err x, q)) h e = e

  rounds-Ends :
      {S A : Type 0} (Q : A → Parser D → Type 0) (body : S → Parse D (Round S A))
      → ((s : S) (p : Parser D) → Ends (Leaves Q) (body s p))
      → (fuel : ℕ) (s : S) (p : Parser D) → Ends Q (rounds body fuel s p)
  unfolding rounds ◌>>=◌
  rounds-Ends Q body h zero s p = tt
  rounds-Ends Q body h (suc fuel) s p =
      next-Ends Q (rounds body fuel) (body s p) (rounds-Ends Q body h fuel) (h s p)

  and_then-Ends :
      {A B : Type 0} (Q : B → Parser D → Type 0) (o : Option (Result A × Parser D))
      (f : A → Parse D B)
      → Ends (λ a q. Unit) o
      → ((a : A) (q : Parser D) → Ends Q (f a q))
      → Ends Q (and_then o f)
  and_then-Ends Q none f e h = tt
  and_then-Ends Q (some (ok a, q)) f e h = h a q
  and_then-Ends Q (some (err x, q)) f e h = absurd e

  -- Nothing is asked of the state.
  abbrev Any : {A : Type 0} → A → Parser D → Type 0
  Any a q = Unit

  resync_of-Ends :
      (top_level : Bool) (here : TokenKind D) (p : Parser D)
      → Ends (Leaves Any) (resync_of top_level here p)
  unfolding bump pure ◌>>=◌
  resync_of-Ends top_level here p = if_both Q (same_kind here eof) tt (
      if_both Q (same_kind here semicolon) tt (
        if_both Q (same_kind here r_brace) (if_both Q top_level tt tt)
          (if_both Q (starts_stmt here) tt tt)))
    where
      Q : Parse D (Round (Unit {0}) (Unit {0})) → Type 0
      Q m = Ends (Leaves Any) (m p)

  resync-Ends : (top_level : Bool) (p : Parser D) → Ends Any (resync top_level p)
  unfolding resync repeat resync_round peek ◌>>=◌
  resync-Ends top_level p = rounds-Ends Any _ (λ u q. resync_of-Ends top_level q.here.kind q) _ tt p

  caught-Ends : {A : Type 0} (o : Option (Result A × Parser D)) → Ends Any (caught o)
  caught-Ends none = tt
  caught-Ends (some r) = tt

module _ {D : Type 0} (c : Calls D) (expr : Parse D (Expr D)) where
  -- The list ends at the end of the file.
  abbrev AtEof : List (Stmt D) → Parser D → Type 0
  AtEof done q = IsEof q.here.kind

  semicolons-Ends : (p : Parser D) → Ends Any (repeat (λ u. semicolon_round c expr) tt p)
  unfolding repeat semicolon_round peek bump pure ◌>>=◌
  semicolons-Ends p =
      rounds-Ends Any _
        (λ u q.
          if_both (λ (m : Parse D (Round (Unit {0}) (Unit {0}))). Ends (Leaves Any) (m q))
            (same_kind q.here.kind semicolon) tt tt)
        _ tt p

  keep_going-Ends :
      (done : List (Stmt D)) (r : Result (Stmt D)) (q : Parser D)
      → Ends (Leaves AtEof) (keep_going c expr true done r q)
  unfolding keep_going push_error pure ◌>>=◌
  keep_going-Ends done (ok s) q = tt
  keep_going-Ends done (err e) q = and_then-Ends (Leaves AtEof) _ _ (resync-Ends true _) (λ u x. tt)

  list_of-Ends :
      (done : List (Stmt D)) (p : Parser D)
      → Ends (Leaves AtEof) (list_of c expr true done p.here.kind p)
  unfolding attempt pure ◌>>=◌
  list_of-Ends done p =
      if_cases (λ (m : Parse D (Round (List (Stmt D)) (List (Stmt D)))). Ends (Leaves AtEof) (m p))
        (same_kind p.here.kind eof) (λ e. e)
        (λ e.
          and_then-Ends (Leaves AtEof) _ _ (caught-Ends (parse_stmt c expr p))
            (keep_going-Ends done))

  list_round-Ends :
      (done : List (Stmt D)) (p : Parser D) → Ends (Leaves AtEof) (list_round c expr true done p)
  unfolding list_round peek ◌>>=◌
  list_round-Ends done p =
      and_then-Ends (Leaves AtEof) _ _ (semicolons-Ends p) (λ u q. list_of-Ends done q)

  parse_stmt_list-Ends : (p : Parser D) → Ends AtEof (parse_stmt_list c expr true p)
  unfolding parse_stmt_list repeat
  parse_stmt_list-Ends p = rounds-Ends AtEof _ list_round-Ends _ [] p

module _ {D : Type 0} (lib : ParserLibrary D) where
  -- The statements of the file, with the state at its end.
  abbrev pub Completed : Parser D → Type 0
  Completed p =
      (all : List (Stmt D)) × (q : Parser D) × (parse_file lib p ≡ some (ok all, q))
      × IsEof q.here.kind

  completed :
      (p : Parser D) (o : Option (Result (List (Stmt D)) × Parser D))
      → Good free p o
      → Ends (λ all q. IsEof q.here.kind) o
      → (all : List (Stmt D)) × (q : Parser D) × (o ≡ some (ok all, q)) × IsEof q.here.kind
  completed p none g e = absurd g
  completed p (some (ok all, q)) g e = (all, q, refl, e)
  completed p (some (err x, q)) g e = absurd e

  -- The parser of a file returns on every sequence of tokens that ends with the end of the file and
  -- in which no string has an interpolation. It recovers from each error, and stops at the end of
  -- the file.
  pub parse_file-Completed : (p : Parser D) → IsPlain p → Completed p
  unfolding parse_file
  parse_file-Completed p w =
      completed p (parse_file lib p) (parse_file-Good lib p w) (parse_stmt_list-Ends _ _ p)
