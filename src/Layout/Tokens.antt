-- ===== src/Layout/Tokens.antt =====
-- parser/src/token.rs: the tokens; base/src/pos.rs: their places; and the results of the layout.
-- `S` is the type of what a token carries, a text or a literal, which the layout never reads.
use embed_lang.Prelude.{ℕ, ◌≡◌, ◌≢◌, subst, Bool, true, false, ltb, leb, if◌then◌else◌}

pub data Token (S : Type 0) : Type 0 where
  shebang_line identifier operator string_literal char_literal int_literal : S → Token S
  byte_literal float_literal doc_comment : S → Token S
  rec_kw else_kw forall_kw if_kw in_kw let_kw do_kw seq_kw match_kw then_kw type_kw with_kw :
      Token S
  at colon comma dot dot_dot equals lambda pipe r_arrow question : Token S
  l_brace l_bracket l_paren r_brace r_bracket r_paren : Token S
  open_block close_block semi attribute_open eof : Token S

pub record Location : Type 0 where
  pub line : ℕ
  pub column : ℕ
  pub absolute : ℕ

pub record Spanned (S : Type 0) : Type 0 where
  pub value : Token S
  pub start : Location
  pub end : Location

-- The derived order of `Location`: by line, then by column, then by position.
unfoldable pub location_le : Location → Location → Bool
location_le a b =
    if ltb a.line b.line
    then true
    else if ltb b.line a.line
    then false
    else if ltb a.column b.column
    then true
    else if ltb b.column a.column
    then false
    else leb a.absolute b.absolute

-- `Spanned { span: Span::new(start, end), value }`: the places are swapped if they are out of order.
unfoldable pub spanned : {S : Type 0} → Location → Location → Token S → Spanned S
spanned start end value =
    if location_le start end
    then record { value = value; start = start; end = end }
    else record { value = value; start = end; end = start }

-- What the lexer hands over: a token, or an error, of which the layout passes on the number.
pub data Lexed (S : Type 0) : Type 0 where
  lexed : Spanned S → Lexed S
  lex_error : ℕ → Lexed S

pub data Error : Type 0 where
  unindented_too_far : ℕ → Error
  lexer : ℕ → Error

-- A result of the layout; `panicked` is a failed `expect` or `unwrap`, and `no_fuel` a loop that was
-- not run to its end.
pub data Res (A : Type 0) : Type 0 where
  ok : A → Res A
  err : Error → Res A
  panicked : Res A
  no_fuel : Res A

infixl 5 ◌>>=◌
abbrev pub ◌>>=◌ : {A B : Type 0} → Res A → (A → Res B) → Res B
ok a >>= f = f a
err e >>= f = err e
panicked >>= f = panicked
no_fuel >>= f = no_fuel

-- The loops end, and a successful result satisfies `Q`.
pub data Post {A : Type 0} (Q : A → Type 0) : Res A → Type 0 where
  fine : {a : A} → Q a → Post Q (ok a)
  failed : {e : Error} → Post Q (err e)
  stopped : Post Q panicked

abbrev pub Ensures : {A : Type 0} → Res A → (A → Type 0) → Type 0
Ensures m Q = Post Q m

pub >>=-Ensures :
    {A B : Type 0} {m : Res A} {f : A → Res B} (P : A → Type 0) {Q : B → Type 0}
    → Ensures m P
    → ((a : A) → P a → Ensures (f a) Q)
    → Ensures (m >>= f) Q
>>=-Ensures P (fine h) k = k _ h
>>=-Ensures P failed k = failed
>>=-Ensures P stopped k = stopped

pub Ensures-map :
    {A : Type 0} {m : Res A} (P : A → Type 0) {Q : A → Type 0}
    → Ensures m P
    → ((a : A) → P a → Q a)
    → Ensures m Q
Ensures-map P (fine h) k = fine (k _ h)
Ensures-map P failed k = failed
Ensures-map P stopped k = stopped

pub if-Ensures :
    {A : Type 0} (b : Bool) {m n : Res A} {Q : A → Type 0}
    → Ensures m Q
    → Ensures n Q
    → Ensures (if b then m else n) Q
if-Ensures true h k = h
if-Ensures false h k = k

-- What the family says of a result.
pub Ensures-ok : {A : Type 0} {m : Res A} {Q : A → Type 0} → Ensures m Q → (a : A) → m ≡ ok a → Q a
Ensures-ok {Q} (fine {a = b} h) a e = subst Q (elim_ok e) h
  where
    elim_ok : ok b ≡ ok a → b ≡ a
    elim_ok e = cc
Ensures-ok failed a e = cc
Ensures-ok stopped a e = cc

pub Ensures-ends : {A : Type 0} {m : Res A} {Q : A → Type 0} → Ensures m Q → m ≢ no_fuel
Ensures-ends (fine h) = λ e. cc
Ensures-ends failed = λ e. cc
Ensures-ends stopped = λ e. cc
