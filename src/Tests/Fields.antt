-- ===== src/Tests/Fields.antt =====
-- Fields of http over maps that are lists of entries, with names that are given parsed.
use wasmx.Base.{
  ==_iff, ℕ, zero, suc, ◌≡◌, ◌⊎◌, refl, sym, ap, ◌∙◌, inl, inr, Bool, true, false, List, [], ◌∷◌,
  Option, none, some, ok, err, ◌==◌, ◌++◌, ◌≢◌, Bool-cases, if◌then◌else◌,
}
use wasmx.Http.Fields.{
  get, HeaderName, connection, keep_alive, proxy_authenticate, proxy_authorization,
  proxy_connection, te, transfer_encoding, upgrade, host, http2_settings, content_length, other,
  HeaderLib, HeaderError, parent, child, Cells, make_child, is_forbidden_header, from_list,
  collect_entries, new, set, append, delete, clone, parse_name, parse_values, parse_header_value,
  change, update, append_all,
}
use wasmx.Http.Fields.Invariant.{
  IsMap, Call, lists, sets, deletes, appends, clones, serve, run, AreClean, run-AreClean,
}
use wasmx.Http.Fields.RoundTrip.{KeepsValues, get-set}
use wasmx.Http.Fields.Children.{Edit, edit, edit-child}

number : HeaderName → ℕ
number connection = 0
number keep_alive = 1
number proxy_authenticate = 2
number proxy_authorization = 3
number proxy_connection = 4
number te = 5
number transfer_encoding = 6
number upgrade = 7
number host = 8
number http2_settings = 9
number content_length = 10
number (other n) = suc (suc (suc (suc (suc (suc (suc (suc (suc (suc (suc n))))))))))

named : ℕ → HeaderName
named zero = connection
named (suc zero) = keep_alive
named (suc (suc zero)) = proxy_authenticate
named (suc (suc (suc zero))) = proxy_authorization
named (suc (suc (suc (suc zero)))) = proxy_connection
named (suc (suc (suc (suc (suc zero))))) = te
named (suc (suc (suc (suc (suc (suc zero)))))) = transfer_encoding
named (suc (suc (suc (suc (suc (suc (suc zero))))))) = upgrade
named (suc (suc (suc (suc (suc (suc (suc (suc zero)))))))) = host
named (suc (suc (suc (suc (suc (suc (suc (suc (suc zero))))))))) = http2_settings
named (suc (suc (suc (suc (suc (suc (suc (suc (suc (suc zero)))))))))) = content_length
named (suc (suc (suc (suc (suc (suc (suc (suc (suc (suc (suc n))))))))))) = other n

named-number : (h : HeaderName) → named (number h) ≡ h
unfolding named number
named-number connection = refl
named-number keep_alive = refl
named-number proxy_authenticate = refl
named-number proxy_authorization = refl
named-number proxy_connection = refl
named-number te = refl
named-number transfer_encoding = refl
named-number upgrade = refl
named-number host = refl
named-number http2_settings = refl
named-number content_length = refl
named-number (other n) = refl

number-injective : (h k : HeaderName) → (number h == number k) ≡ true → h ≡ k
number-injective h k e =
    sym (named-number h) ∙ ap named ((==_iff (number h) (number k)).0 e) ∙ named-number k

abbrev Entries : Type 0
Entries = List (HeaderName × List ℕ)

contains : Entries → HeaderName → Bool
contains [] k = false
contains ((n, v) ∷ m) k = if number k == number n then true else contains m k

remove : HeaderName → Entries → Entries
remove n [] = []
remove n ((k, v) ∷ m) =
    (let rest = remove n m in if number k == number n then rest else ((k, v) ∷ rest))

-- Entries are added in front.
values_of : Entries → HeaderName → List (List ℕ)
values_of [] k = []
values_of ((n, v) ∷ m) k =
    (let rest = values_of m k in if number n == number k then rest ++ (v ∷ []) else rest)

abbrev lib : HeaderLib
lib = record {
  FieldName = Option HeaderName;
  Value = List ℕ;
  HeaderMap = Entries;
  parse = λ name. name;
  parse_u64 = λ bytes. elim bytes [ [] ↦ none | b ∷ bs ↦ some b ];
  from_u64 = λ n. n ∷ [];
  from_bytes = λ bytes. some bytes;
  as_bytes = λ v. v;
  empty = [];
  append_value = λ n v m. (n, v) ∷ m;
  remove = remove;
  contains_key = contains;
  get_all = values_of;
}

if_or : (b x : Bool) → (if b then true else x) ≡ true → (b ≡ true) ⊎ (x ≡ true)
if_or true x e = inl refl
if_or false x e = inr e

or_if : (b x : Bool) → (b ≡ true) ⊎ (x ≡ true) → (if b then true else x) ≡ true
or_if true x e = refl
or_if false x (inr e) = e
or_if false x (inl e) = absurd (cc e)

contains-add :
    (n k : HeaderName) (v : List ℕ) (m : Entries)
    → contains ((n, v) ∷ m) k ≡ true
    → (k ≡ n) ⊎ (contains m k ≡ true)
unfolding contains
contains-add n k v m e = elim (if_or (number k == number n) (contains m k) e) [
  | inl d ↦ inl (number-injective k n d)
  | inr d ↦ inr d
]

contains-if :
    (b : Bool) (h k : HeaderName) (v : List ℕ) (m : Entries)
    → contains (if b then m else ((h, v) ∷ m)) k ≡ true
    → ((number k == number h) ≡ true) ⊎ (contains m k ≡ true)
unfolding contains
contains-if true h k v m e = inr e
contains-if false h k v m e = if_or (number k == number h) (contains m k) e

contains-remove :
    (n k : HeaderName) (m : Entries) → contains (remove n m) k ≡ true → contains m k ≡ true
unfolding contains remove
contains-remove n k [] e = e
contains-remove n k ((h, v) ∷ m) e =
    or_if (number k == number h) (contains m k)
      (elim (contains-if (number h == number n) h k v (remove n m) e) [
        | inl d ↦ inl d
        | inr d ↦ inr (contains-remove n k m d)
      ])

lib-IsMap : IsMap lib
unfolding contains
lib-IsMap = record {
  empty_key = λ n. refl;
  append_key = λ n k v m. contains-add n k v m;
  remove_key = λ n k m. contains-remove n k m;
}

abbrev start : Cells lib
start = record { next = 0; cell = λ h. none }

start-AreClean : AreClean lib start
start-AreClean h m e = absurd (cc e)

-- A list, an append, a set, a header that is refused, a copy and a change of the copy.
abbrev calls : List (Call lib)
calls =
    lists ((some (other 1), 5 ∷ []) ∷ (some content_length, 7 ∷ []) ∷ [])
    ∷ appends (parent 0) (some (other 2)) (6 ∷ [])
    ∷ sets (parent 0) (some (other 1)) ((8 ∷ []) ∷ (9 ∷ []) ∷ [])
    ∷ appends (parent 0) (some host) (3 ∷ [])
    ∷ clones (child 0)
    ∷ deletes (parent 1) (some content_length)
    ∷ []

run-AreClean_example : AreClean lib (run lib calls start)
run-AreClean_example = run-AreClean lib lib-IsMap calls start start-AreClean

calls-original :
    (run lib calls start).cell 0
    ≡ some
        ((other 1, 9 ∷ []) ∷ (other 1, 8 ∷ []) ∷ (other 2, 6 ∷ []) ∷ (content_length, 7 ∷ []) ∷ [])
unfolding run serve from_list collect_entries new set append delete clone parse_name parse_values
    parse_header_value is_forbidden_header change update append_all remove number
calls-original = refl

calls-copy :
    (run lib calls start).cell 1
    ≡ some ((other 1, 9 ∷ []) ∷ (other 1, 8 ∷ []) ∷ (other 2, 6 ∷ []) ∷ [])
unfolding run serve from_list collect_entries new set append delete clone parse_name parse_values
    parse_header_value is_forbidden_header change update append_all remove number
calls-copy = refl

abbrev edited : Edit lib
edited = Edit.sets (some (other 2)) ((4 ∷ []) ∷ [])

edit-child_example :
    (x : HeaderError) × (edit lib edited (make_child (parent 0)) (run lib calls start)
      ≡ (ok (err x), run lib calls start))
edit-child_example = edit-child lib edited (parent 0) (run lib calls start)

values_of-add :
    (n : HeaderName) (v : List ℕ) (m : Entries)
    → values_of ((n, v) ∷ m) n ≡ values_of m n ++ (v ∷ [])
unfolding values_of
values_of-add n v m = rw ((==_iff (number n) (number n)).1 refl) refl

values_of-remove : (n : HeaderName) (m : Entries) → values_of (remove n m) n ≡ []
unfolding values_of remove
values_of-remove n [] = refl
values_of-remove n ((k, v) ∷ m) = elim (Bool-cases (number k == number n)) [
  | inl e ↦ rw e (values_of-remove n m)
  | inr e ↦ rw (e, values_of, e) (values_of-remove n m)
]

lib-KeepsValues : KeepsValues lib
lib-KeepsValues = record {
  removed = values_of-remove;
  appended = values_of-add;
  bytes = λ b v e. cc e;
}

abbrev begun : Cells lib
begun = record { next = 1; cell = λ h. some [] }

abbrev values : List (List ℕ)
values = (4 ∷ []) ∷ (5 ∷ []) ∷ []

set_ok : (set lib (parent 0) (some (other 2)) values begun).0 ≡ ok (ok tt)
unfolding set parse_name parse_values parse_header_value is_forbidden_header change
set_ok = refl

other_2 : other 2 ≢ content_length
other_2 e = cc e

get-set_example :
    get lib (parent 0) (some (other 2)) (set lib (parent 0) (some (other 2)) values begun).1
    ≡ ok values
get-set_example =
    get-set lib lib-KeepsValues (parent 0) (some (other 2)) (other 2) values begun refl other_2
      set_ok
