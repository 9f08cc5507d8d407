-- ===== src/Entries/Unique.antt =====
-- What the file of a server tells: its lines, and the entries that they are of.
use raft_algorep.Base.{
  ℤ, pos, pos_part, true, false, List, [], ◌∷◌, ◌++◌, map, drop, All, Text, ◌==◌, ◌≡◌, refl, sym,
  ap, ◌∙◌, arith,
}
use raft_algorep.Rpc.{Entry}
use raft_algorep.Clock.{codes}
use raft_algorep.Controller.{split_space}
use raft_algorep.Controller.Numbers.{split_space-append}
use raft_algorep.Main.{get_lines}
use raft_algorep.Entries.{int_text, entry_text, file_text}
use raft_algorep.Entries.Numbers.{int_text_unique, int_text-NoSpace, one_line, int_text-one_line}

-- A field that a space ends is read off.
field : (i j : ℤ) (s t : Text) → int_text i ++ 32 ∷ s ≡ int_text j ++ 32 ∷ t → (i ≡ j) × (s ≡ t)
field i j s t e =
    let split =
      sym (split_space-append (int_text i) s (int_text-NoSpace i))
      ∙ ap split_space e
      ∙ split_space-append (int_text j) t (int_text-NoSpace j) in
    (int_text_unique i j (ap (λ (x : Text × Text). x.0) split), ap (λ (x : Text × Text). x.1) split)

entry-eq :
    (e e' : Entry)
    → e.index ≡ e'.index
    → e.term ≡ e'.term
    → e.client_id ≡ e'.client_id
    → e.cmd ≡ e'.cmd
    → e ≡ e'
entry-eq e e' i t c m = rw (i, t, c, m) refl

-- What follows the space behind each number.
abbrev after_client : Entry → Text
after_client e = codes "CMD: " ++ e.cmd

abbrev after_term : Entry → Text
after_term e = codes "CLIENT_ID: " ++ (int_text (pos e.client_id) ++ 32 ∷ after_client e)

abbrev after_index : Entry → Text
after_index e = codes "TERM: " ++ (int_text e.term ++ 32 ∷ after_term e)

entry_text_unique : (e e' : Entry) → entry_text e ≡ entry_text e' → e ≡ e'
unfolding entry_text
entry_text_unique e e' same =
    let (i, r) = field e.index e'.index (after_index e) (after_index e') (ap (drop 9) same) in
    let (t, r') = field e.term e'.term (after_term e) (after_term e') (ap (drop 6) r) in
    let (c, r'') =
      field (pos e.client_id) (pos e'.client_id) (after_client e) (after_client e')
        (ap (drop 11) r') in
    entry-eq e e' i t (ap pos_part c) (ap (drop 5) r'')

one_line-append : (s t : Text) → one_line s ≡ true → one_line t ≡ true → one_line (s ++ t) ≡ true
one_line-append [] t h k = k
one_line-append (c ∷ s) t h k = ground (arith, one_line-append s t)

entry_text-one_line : (e : Entry) → one_line e.cmd ≡ true → one_line (entry_text e) ≡ true
unfolding entry_text
entry_text-one_line e h =
    one_line-append (int_text e.index) (32 ∷ after_index e) (int_text-one_line e.index) (
      one_line-append (int_text e.term) (32 ∷ after_term e) (int_text-one_line e.term) (
        one_line-append (int_text (pos e.client_id)) (32 ∷ after_client e)
          (int_text-one_line (pos e.client_id)) h))

get_lines-append :
    (line rest : Text)
    → one_line line ≡ true
    → get_lines (line ++ 10 ∷ rest) ≡ line ∷ get_lines rest
unfolding get_lines
get_lines-append [] rest h = refl
get_lines-append (c ∷ line) rest h = rw (get_lines-append line rest others, no_newline) refl
  where
    others : one_line line ≡ true
    others = ground (arith, h)

    no_newline : (c == 10) ≡ false
    no_newline = ground (arith, h)

-- The commands of the entries have no line's end in them.
abbrev pub OneLiners : List Entry → Type 0
OneLiners es = All (λ e. one_line e.cmd ≡ true) es

pub get_lines-file_text :
    (es : List Entry) → OneLiners es → get_lines (file_text es) ≡ map entry_text es
unfolding file_text
get_lines-file_text [] h = unfold get_lines in refl
get_lines-file_text (e ∷ es) h =
    get_lines-append (entry_text e) (file_text es) (entry_text-one_line e h.0)
    ∙ ap (◌∷◌ (entry_text e)) (get_lines-file_text es h.1)

map_unique : (es es' : List Entry) → map entry_text es ≡ map entry_text es' → es ≡ es'
map_unique [] [] same = refl
map_unique [] (e' ∷ es') same = cc
map_unique (e ∷ es) [] same = cc
map_unique (e ∷ es) (e' ∷ es') same =
    let first : entry_text e ≡ entry_text e' = cc in
    let others : map entry_text es ≡ map entry_text es' = cc in
    rw (entry_text_unique e e' first, map_unique es es' others) refl

-- The text of a file tells which entries have been saved, in which order: two servers whose saved
-- entries have commands without a line's end and whose files have the same text have saved the
-- same entries.
pub file_text_unique :
    (es es' : List Entry) → OneLiners es → OneLiners es' → file_text es ≡ file_text es' → es ≡ es'
file_text_unique es es' h h' same =
    map_unique es es'
      (sym (get_lines-file_text es h) ∙ ap get_lines same ∙ get_lines-file_text es' h')
