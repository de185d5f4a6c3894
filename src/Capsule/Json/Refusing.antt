-- ===== src/Capsule/Json/Refusing.antt =====
-- decodeJSONValue reads nothing but values that keep to the limits (internal/capsule/json.go).
use command_prompter_doc_bot.Prelude.{
  ℕ, zero, suc, ◌+◌, ◌≤◌, ◌≡◌, refl, sym, ap, subst, ◌∙◌, ◌↔◌, ◌⊎◌, inl, inr, String, Bool, true,
  false, not, ◌||◌, List, [], ◌∷◌, length, ltb, leb, arith, ok, ◌>>=◌, >>=-eq-ok, Bool-cases,
}
use command_prompter_doc_bot.Capsule.Json.{
  Json, Items, Members, null, boolean, number, text, array, object, end_items, and_item,
  end_members, and_member, Token, null_token, bool_token, number_token, text_token, open_array,
  close_array, open_object, close_object, broken, Complexity, Decoded, is_finite, has_name,
  within_depth, checked, decode_value, decode_items, decode_members, parse_strict_json, at_end,
}
use command_prompter_doc_bot.Capsule.Json.Printing.{
  emit, emit_items, emit_members, token_count, key_count, items_key_count, members_key_count, Fits,
  ItemsFit, MembersFit, length-emit,
}
use command_prompter_doc_bot.Capsule.Json.Accepting.{decode_value-emit}
use Prim.Native.String.{len}

-- The number of keys after a reading that adds `count` to it, and that it is within its limit.
abbrev Counts : Complexity → ℕ → ℕ → ℕ → Type 0
Counts lim keys count keys' = (keys' ≡ keys + count) × (keys ≤ lim.max_keys → keys' ≤ lim.max_keys)

abbrev Reads : Complexity → ℕ → ℕ → List Token → Json → ℕ → List Token → Type 0
Reads lim depth keys ts v keys' rest =
    (ts ≡ emit v rest) × Fits lim depth v × Counts lim keys (key_count v) keys'

abbrev ReadsItems : Complexity → ℕ → ℕ → List Token → Items → ℕ → List Token → Type 0
ReadsItems lim depth keys ts xs keys' rest =
    (ts ≡ emit_items xs rest) × ItemsFit lim depth xs × Counts lim keys (items_key_count xs) keys'

abbrev ReadsMembers :
    Complexity → ℕ → ℕ → List String → List Token → Members → ℕ → List Token → Type 0
ReadsMembers lim depth keys names ts ms keys' rest =
    (ts ≡ emit_members ms rest)
    × MembersFit lim depth names ms
    × Counts lim keys (members_key_count ms) keys'

-- A leaf of the tree of values.
leaf :
    (lim : Complexity) (depth keys : ℕ) (b : Bool) (w v : Json) (ts tail rest : List Token)
    (keys' : ℕ)
    → within_depth lim depth (checked b w keys tail) ≡ ok (v, keys', rest)
    → (depth ≤ lim.max_depth → b ≡ true → Fits lim depth w)
    → ts ≡ emit w tail
    → key_count w ≡ 0
    → Reads lim depth keys ts v keys' rest
leaf lim depth keys b w v ts tail rest keys' h fits e none =
    elim (Bool-cases (ltb lim.max_depth depth)) [
      | inl deep ↦ absurd (ground (arith, h, deep))
      | inr shallow ↦ elim (Bool-cases b) [
        | inr bad ↦ absurd (ground (arith, h, shallow, bad))
        | inl good ↦
            let w_is : w ≡ v = ground (arith, h, shallow, good) in
            let keys_are : keys ≡ keys' = ground (arith, h, shallow, good) in
            let rest_is : tail ≡ rest = ground (arith, h, shallow, good) in
            subst (λ x. Reads lim depth keys ts x keys' rest) w_is
              (subst (λ x. Reads lim depth keys ts w keys' x) rest_is
                (
                  e,
                  fits (ground (arith, shallow)) good,
                  (omega (arith, keys_are, none), λ le. omega (arith, keys_are, le)),
                ))
      ]
    ]

not_deep :
    (lim : Complexity) (depth : ℕ) (r : Decoded Json) {x : Json × ℕ × List Token}
    → within_depth lim depth r ≡ ok x
    → (depth ≤ lim.max_depth) × (r ≡ ok x)
not_deep lim depth r h = elim (Bool-cases (ltb lim.max_depth depth)) [
  | inl deep ↦ absurd (ground (arith, h, deep))
  | inr shallow ↦ (ground (arith, shallow), ground (arith, h, shallow))
]

-- A reading of items begins with the end of the array, or with a value.
items_step :
    (f : ℕ) (lim : Complexity) (depth keys : ℕ) (ts : List Token)
    → ((tail : List Token) × (ts ≡ close_array ∷ tail))
      ⊎ (decode_items (suc f) lim depth keys ts ≡ (
          decode_value f lim (suc depth) keys ts >>= λ (v, keys', rest).
          decode_items f lim depth keys' rest >>= λ (items, keys'', rest').
          ok (and_item v items, keys'', rest')))
unfolding decode_items
items_step f lim depth keys [] = inr refl
items_step f lim depth keys (close_array ∷ tail) = inl (tail, refl)
items_step f lim depth keys (_ ∷ tail) = inr refl

-- A reading of members begins with the end of the object, or with a name and a value.
members_step :
    (f : ℕ) (lim : Complexity) (depth keys : ℕ) (names : List String) (ts : List Token)
    {x : Members × ℕ × List Token}
    → decode_members (suc f) lim depth keys names ts ≡ ok x
    → ((tail : List Token) × (ts ≡ close_object ∷ tail))
      ⊎ ((s : String) × (tail : List Token) × (ts ≡ text_token s ∷ tail)
          × (len s ≤ lim.max_string_bytes)
          × (has_name s names ≡ false)
          × (suc keys ≤ lim.max_keys)
          × ((decode_value f lim (suc depth) (suc keys) tail >>= λ (v, keys', rest').
                decode_members f lim depth keys' (s ∷ names) rest' >>= λ (members, keys'', rest'').
                ok (and_member s v members, keys'', rest''))
              ≡ ok x))
unfolding decode_members
members_step f lim depth keys names [] h = cc
members_step f lim depth keys names (close_object ∷ tail) h = inl (tail, refl)
members_step f lim depth keys names (text_token s ∷ tail) h =
    elim (Bool-cases
      (not (leb (len s) lim.max_string_bytes) || has_name s names || ltb lim.max_keys (suc keys))) [
        | inl refused ↦ absurd (ground (arith, h, refused))
        | inr allowed ↦ inr (
          s,
          tail,
          refl,
          ground (arith, allowed),
          ground (arith, allowed),
          ground (arith, allowed),
          rw allowed at h,
        )
      ]
members_step f lim depth keys names (_ ∷ tail) h = cc

mutual
  unfolding decode_value emit key_count Fits

  read_value :
      (f : ℕ) (lim : Complexity) (depth keys : ℕ) (ts : List Token) (v : Json) (keys' : ℕ)
      (rest : List Token)
      → decode_value f lim depth keys ts ≡ ok (v, keys', rest)
      → Reads lim depth keys ts v keys' rest
  read_value zero lim depth keys ts v keys' rest h = cc
  read_value (suc f) lim depth keys [] v keys' rest h = cc
  read_value (suc f) lim depth keys (null_token ∷ tail) v keys' rest h =
      leaf lim depth keys true null v (null_token ∷ tail) tail rest keys' h (λ d t. d) refl refl
  read_value (suc f) lim depth keys (bool_token b ∷ tail) v keys' rest h =
      leaf lim depth keys true (boolean b) v (bool_token b ∷ tail) tail rest keys' h (λ d t. d) refl
        refl
  read_value (suc f) lim depth keys (number_token n ∷ tail) v keys' rest h =
      leaf lim depth keys (is_finite n) (number n) v (number_token n ∷ tail) tail rest keys' h
        (λ d t. (d, t)) refl refl
  read_value (suc f) lim depth keys (text_token s ∷ tail) v keys' rest h =
      leaf lim depth keys (leb (len s) lim.max_string_bytes) (text s) v (text_token s ∷ tail) tail
        rest keys' h (λ d t. (d, ground (arith, t))) refl refl
  read_value (suc f) lim depth keys (open_array ∷ tail) v keys' rest h =
      let (d, r) = not_deep lim depth _ h in
      let ((xs, k, left), one, two) = >>=-eq-ok (decode_items f lim depth keys tail) _ r in
      let (e, fits, counts) = read_items f lim depth keys tail xs k left one in
      let v_is : array xs ≡ v = ground (arith, two) in
      let k_is : k ≡ keys' = ground (arith, two) in
      let left_is : left ≡ rest = ground (arith, two) in
      subst (λ x. Reads lim depth keys (open_array ∷ tail) x keys' rest) v_is
        (subst (λ x. Reads lim depth keys (open_array ∷ tail) (array xs) x rest) k_is
          (subst (λ x. Reads lim depth keys (open_array ∷ tail) (array xs) k x) left_is
            (ap (λ x. open_array ∷ x) e, (d, fits), counts)))
  read_value (suc f) lim depth keys (open_object ∷ tail) v keys' rest h =
      let (d, r) = not_deep lim depth _ h in
      let ((ms, k, left), one, two) = >>=-eq-ok (decode_members f lim depth keys [] tail) _ r in
      let (e, fits, counts) = read_members f lim depth keys [] tail ms k left one in
      let v_is : object ms ≡ v = ground (arith, two) in
      let k_is : k ≡ keys' = ground (arith, two) in
      let left_is : left ≡ rest = ground (arith, two) in
      subst (λ x. Reads lim depth keys (open_object ∷ tail) x keys' rest) v_is
        (subst (λ x. Reads lim depth keys (open_object ∷ tail) (object ms) x rest) k_is
          (subst (λ x. Reads lim depth keys (open_object ∷ tail) (object ms) k x) left_is
            (ap (λ x. open_object ∷ x) e, (d, fits), counts)))
  read_value (suc f) lim depth keys (close_array ∷ tail) v keys' rest h = cc
  read_value (suc f) lim depth keys (close_object ∷ tail) v keys' rest h = cc
  read_value (suc f) lim depth keys (broken ∷ tail) v keys' rest h = cc

  read_items :
      (f : ℕ) (lim : Complexity) (depth keys : ℕ) (ts : List Token) (xs : Items) (keys' : ℕ)
      (rest : List Token)
      → decode_items f lim depth keys ts ≡ ok (xs, keys', rest)
      → ReadsItems lim depth keys ts xs keys' rest
  read_items zero lim depth keys ts xs keys' rest h = cc
  read_items (suc f) lim depth keys ts xs keys' rest h = elim (items_step f lim depth keys ts) [
    | inl ends ↦
        let (tail, at) = ends in
        let done : decode_items (suc f) lim depth keys (close_array ∷ tail) ≡ ok (xs, keys', rest) =
          subst (λ x. decode_items (suc f) lim depth keys x ≡ ok (xs, keys', rest)) at h in
        let xs_is : end_items ≡ xs = ground (arith, done) in
        let keys_are : keys ≡ keys' = ground (arith, done) in
        let rest_is : tail ≡ rest = ground (arith, done) in
        subst (λ x. ReadsItems lim depth keys ts x keys' rest) xs_is
          (
            at ∙ ap (λ x. close_array ∷ x) rest_is,
            tt,
            (omega (arith, keys_are), λ le. omega (arith, keys_are, le)),
          )
    | inr goes_on ↦
        let ((v, k, left), one, more) =
          >>=-eq-ok (decode_value f lim (suc depth) keys ts) _ (sym goes_on ∙ h) in
        let ((ys, k2, left2), two, last) = >>=-eq-ok (decode_items f lim depth k left) _ more in
        let (e, fits, counts) = read_value f lim (suc depth) keys ts v k left one in
        let (e2, fits2, counts2) = read_items f lim depth k left ys k2 left2 two in
        let xs_is : and_item v ys ≡ xs = ground (arith, last) in
        let keys_are : k2 ≡ keys' = ground (arith, last) in
        let rest_is : left2 ≡ rest = ground (arith, last) in
        subst (λ x. ReadsItems lim depth keys ts x keys' rest) xs_is
          (
            e ∙ ap (emit v) (e2 ∙ ap (emit_items ys) rest_is),
            (fits, fits2),
            (
              omega (arith, counts.0, counts2.0, keys_are),
              λ le. omega (arith, counts2.1 (counts.1 le), keys_are),
            ),
          )
  ]

  read_members :
      (f : ℕ) (lim : Complexity) (depth keys : ℕ) (names : List String) (ts : List Token)
      (ms : Members) (keys' : ℕ) (rest : List Token)
      → decode_members f lim depth keys names ts ≡ ok (ms, keys', rest)
      → ReadsMembers lim depth keys names ts ms keys' rest
  read_members zero lim depth keys names ts ms keys' rest h = cc
  read_members (suc f) lim depth keys names ts ms keys' rest h =
      elim (members_step f lim depth keys names ts h) [
        | inl ends ↦
            let (tail, at) = ends in
            let done : decode_members (suc f) lim depth keys names (close_object ∷ tail)
                ≡ ok (ms, keys', rest) =
              subst (λ x. decode_members (suc f) lim depth keys names x ≡ ok (ms, keys', rest)) at
                h in
            let ms_is : end_members ≡ ms = ground (arith, done) in
            let keys_are : keys ≡ keys' = ground (arith, done) in
            let rest_is : tail ≡ rest = ground (arith, done) in
            subst (λ x. ReadsMembers lim depth keys names ts x keys' rest) ms_is
              (
                at ∙ ap (λ x. close_object ∷ x) rest_is,
                tt,
                (omega (arith, keys_are), λ le. omega (arith, keys_are, le)),
              )
        | inr goes_on ↦
            let (s, tail, at, short, fresh, few, r) = goes_on in
            let ((v, k, left), one, more) =
              >>=-eq-ok (decode_value f lim (suc depth) (suc keys) tail) _ r in
            let ((ns, k2, left2), two, last) =
              >>=-eq-ok (decode_members f lim depth k (s ∷ names) left) _ more in
            let (e, fits, counts) = read_value f lim (suc depth) (suc keys) tail v k left one in
            let (e2, fits2, counts2) =
              read_members f lim depth k (s ∷ names) left ns k2 left2 two in
            let ms_is : and_member s v ns ≡ ms = ground (arith, last) in
            let keys_are : k2 ≡ keys' = ground (arith, last) in
            let rest_is : left2 ≡ rest = ground (arith, last) in
            subst (λ x. ReadsMembers lim depth keys names ts x keys' rest) ms_is
              (
                at
                    ∙ ap (λ x. text_token s ∷ x)
                        (e ∙ ap (emit v) (e2 ∙ ap (emit_members ns) rest_is)),
                (short, fresh, fits, fits2),
                (
                  omega (arith, counts.0, counts2.0, keys_are),
                  λ le. omega (arith, counts2.1 (counts.1 few), keys_are),
                ),
              )
      ]

at_end-ok :
    (w : Json) (k : ℕ) (rest : List Token) (v : Json) (keys : ℕ)
    → at_end (w, k, rest) ≡ ok (v, keys)
    → (w ≡ v) × (k ≡ keys) × (rest ≡ [])
unfolding at_end
at_end-ok w k [] v keys h = (ground (arith, h), ground (arith, h), refl)
at_end-ok w k (t ∷ rest) v keys h = cc

-- parseStrictJSON accepts exactly the tokens of one value that keeps to the limits: no part is too deep,
-- names and strings are short enough, numbers are finite, no object has a name twice, and the objects
-- have together no more members than allowed. It returns that value and the number of its members.
pub parse_strict_json_iff :
    (lim : Complexity) (ts : List Token) (v : Json) (keys : ℕ)
    → (parse_strict_json lim ts ≡ ok (v, keys))
      ↔ ((ts ≡ emit v []) × Fits lim 1 v × (keys ≡ key_count v) × (key_count v ≤ lim.max_keys))
unfolding parse_strict_json at_end
parse_strict_json_iff lim ts v keys = (reads, accepts)
  where
    reads :
        parse_strict_json lim ts ≡ ok (v, keys)
        → (ts ≡ emit v []) × Fits lim 1 v × (keys ≡ key_count v) × (key_count v ≤ lim.max_keys)
    reads h =
        let ((w, k, rest), one, last) = >>=-eq-ok (decode_value (length ts) lim 1 0 ts) _ h in
        let (w_is, k_is, rest_is) = at_end-ok w k rest v keys last in
        let (e, fits, counts) = read_value (length ts) lim 1 0 ts w k rest one in
        let count_is : key_count w ≡ key_count v = ap key_count w_is in
        (
          e ∙ ap (emit w) rest_is ∙ ap (λ x. emit x []) w_is,
          subst (Fits lim 1) w_is fits,
          omega (arith, counts.0, k_is, count_is),
          omega (arith, counts.0, counts.1 (omega arith), count_is),
        )

    accepts :
        (ts ≡ emit v []) × Fits lim 1 v × (keys ≡ key_count v) × (key_count v ≤ lim.max_keys)
        → parse_strict_json lim ts ≡ ok (v, keys)
    accepts (e, fits, k, le) =
        let enough : token_count v ≤ length ts =
          subst (λ x. token_count v ≤ length x) (sym e) (omega (arith, length-emit v [])) in
        let done = decode_value-emit (length ts) lim 1 0 v [] fits enough (omega (arith, le)) in
        let step : decode_value (length ts) lim 1 0 ts ≡ ok (v, 0 + key_count v, []) =
          subst (λ x. decode_value (length ts) lim 1 0 x ≡ ok (v, 0 + key_count v, [])) (sym e)
            done in
        rw step (ground (arith, k))
