-- ===== src/Capsule/Json/Accepting.antt =====
-- decodeJSONValue reads every value that keeps to the limits (internal/capsule/json.go).
use command_prompter_doc_bot.Prelude.{
  ℕ, zero, suc, ◌+◌, ◌≤◌, ◌≡◌, refl, String, false, not, ◌||◌, List, [], ◌∷◌, ltb, leb, arith, ok,
  ◌>>=◌,
}
use command_prompter_doc_bot.Capsule.Json.{
  Json, Items, Members, null, boolean, number, text, array, object, end_items, and_item,
  end_members, and_member, Token, Complexity, Decoded, has_name, within_depth, decode_value,
  decode_items, decode_members,
}
use command_prompter_doc_bot.Capsule.Json.Printing.{
  emit, emit_items, emit_members, token_count, items_token_count, members_token_count, key_count,
  items_key_count, members_key_count, Fits, ItemsFit, MembersFit, token_count_positive,
  items_token_count_positive,
}
use Prim.Native.String.{len}

shallow :
    (lim : Complexity) (depth : ℕ) (r : Decoded Json)
    → depth ≤ lim.max_depth
    → within_depth lim depth r ≡ r
shallow lim depth r h = ground arith

-- A value does not look like the end of the array.
decode_items-emit :
    (f : ℕ) (lim : Complexity) (depth keys : ℕ) (v : Json) (rest : List Token)
    → decode_items (suc f) lim depth keys (emit v rest) ≡ (
        decode_value f lim (suc depth) keys (emit v rest) >>= λ (w, keys', rest').
        decode_items f lim depth keys' rest' >>= λ (items, keys'', rest'').
        ok (and_item w items, keys'', rest''))
unfolding decode_items emit
decode_items-emit f lim depth keys null rest = refl
decode_items-emit f lim depth keys (boolean b) rest = refl
decode_items-emit f lim depth keys (number n) rest = refl
decode_items-emit f lim depth keys (text s) rest = refl
decode_items-emit f lim depth keys (array xs) rest = refl
decode_items-emit f lim depth keys (object ms) rest = refl

mutual
  unfolding decode_value emit token_count key_count Fits

  accept_value :
      (f : ℕ) (lim : Complexity) (depth keys : ℕ) (v : Json) (rest : List Token)
      → Fits lim depth v
      → token_count v ≤ f
      → keys + key_count v ≤ lim.max_keys
      → decode_value f lim depth keys (emit v rest) ≡ ok (v, keys + key_count v, rest)
  accept_value zero lim depth keys v rest h le k =
      absurd (omega (arith, le, token_count_positive v))
  accept_value (suc f) lim depth keys null rest h le k = ground (arith, h)
  accept_value (suc f) lim depth keys (boolean b) rest h le k = ground (arith, h)
  accept_value (suc f) lim depth keys (number n) rest h le k = ground (arith, h.0, h.1)
  accept_value (suc f) lim depth keys (text s) rest h le k = ground (arith, h.0, h.1)
  accept_value (suc f) lim depth keys (array xs) rest h le k =
      rw (accept_items f lim depth keys xs rest h.1 (omega (arith, le)) k, decode_value)
        (shallow lim depth _ h.0)
  accept_value (suc f) lim depth keys (object ms) rest h le k =
      rw (accept_members f lim depth keys [] ms rest h.1 (omega (arith, le)) k, decode_value)
        (shallow lim depth _ h.0)

  accept_items :
      (f : ℕ) (lim : Complexity) (depth keys : ℕ) (xs : Items) (rest : List Token)
      → ItemsFit lim depth xs
      → items_token_count xs ≤ f
      → keys + items_key_count xs ≤ lim.max_keys
      → decode_items f lim depth keys (emit_items xs rest)
        ≡ ok (xs, keys + items_key_count xs, rest)
  accept_items zero lim depth keys xs rest h le k =
      absurd (omega (arith, le, items_token_count_positive xs))
  accept_items (suc f) lim depth keys end_items rest h le k = ground arith
  accept_items (suc f) lim depth keys (and_item v xs) rest h le k =
      let first =
        accept_value f lim (suc depth) keys v (emit_items xs rest) h.0
          (omega (arith, le, items_token_count_positive xs)) (omega (arith, k)) in
      let others =
        accept_items f lim depth (keys + key_count v) xs rest h.1
          (omega (arith, le, token_count_positive v)) (omega (arith, k)) in
      rw (decode_items-emit f lim depth keys v (emit_items xs rest), first, others) (ground arith)

  accept_members :
      (f : ℕ) (lim : Complexity) (depth keys : ℕ) (names : List String) (ms : Members)
      (rest : List Token)
      → MembersFit lim depth names ms
      → members_token_count ms ≤ f
      → keys + members_key_count ms ≤ lim.max_keys
      → decode_members f lim depth keys names (emit_members ms rest)
        ≡ ok (ms, keys + members_key_count ms, rest)
  accept_members zero lim depth keys names end_members rest h le k = absurd (omega (arith, le))
  accept_members zero lim depth keys names (and_member s v ms) rest h le k =
      absurd (omega (arith, le))
  accept_members (suc f) lim depth keys names end_members rest h le k = ground arith
  accept_members (suc f) lim depth keys names (and_member s v ms) rest h le k =
      let allowed : (not (leb (len s) lim.max_string_bytes)
            || has_name s names
            || ltb lim.max_keys (suc keys))
          ≡ false =
        ground (arith, h.0, h.1, k) in
      let first =
        accept_value f lim (suc depth) (suc keys) v (emit_members ms rest) h.2 (omega (arith, le))
          (omega (arith, k)) in
      let others =
        accept_members f lim depth (suc keys + key_count v) (s ∷ names) ms rest h.3
          (omega (arith, le, token_count_positive v)) (omega (arith, k)) in
      rw (allowed, first, others, decode_members) (ground arith)

-- With a unit of fuel for each of its tokens, a value that keeps to the limits is read, and what is
-- behind it is left.
pub decode_value-emit :
    (f : ℕ) (lim : Complexity) (depth keys : ℕ) (v : Json) (rest : List Token)
    → Fits lim depth v
    → token_count v ≤ f
    → keys + key_count v ≤ lim.max_keys
    → decode_value f lim depth keys (emit v rest) ≡ ok (v, keys + key_count v, rest)
decode_value-emit f lim depth keys v rest h le k = accept_value f lim depth keys v rest h le k
