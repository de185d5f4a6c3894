-- ===== src/Pool/Slots.antt =====
-- Slot, NewSlot and the checks of NewSlotPool (internal/capsule/pool.go). What the operating system's
-- path library does is a parameter.
use command_prompter_doc_bot.Prelude.{
  ℕ, suc, ◌≡◌, String, str_eq, eq_iff, Bool, true, false, not, ◌&&◌, ◌||◌, List, [], ◌∷◌, arith,
  ltb, if◌then◌else◌, Result, ok, err, ◌>>=◌,
}
use Prim.Native.String.{len}

pub data PoolError : Type 0 where
  unavailable done : PoolError

pub record Slot : Type 0 where
  pub name : String
  pub socket_path : String

-- filepath.Clean, filepath.IsAbs, strings.TrimSpace, and normalizedPath, which folds the case on
-- Windows.
pub record Paths : Type 0 where
  pub clean : String → String
  pub is_abs : String → Bool
  pub trim_space : String → String
  pub normalized_path : String → String

unfoldable pub new_slot : Paths → String → String → Result PoolError Slot
new_slot paths name socket_path =
    let clean = paths.clean socket_path in
    if str_eq name ""
      || not (str_eq name (paths.trim_space name))
      || ltb 128 (len name)
      || not (paths.is_abs clean)
    then err unavailable
    else ok (record { name = name; socket_path = clean })

abbrev pub member : String → List String → Bool
member s [] = false
member s (t ∷ ts) = if str_eq s t then true else member s ts

-- The loop of NewSlotPool, with the names and the paths that it has seen.
unfoldable pub check_slots :
    Paths → List String → List String → List Slot → Result PoolError (List Slot)
unfolding new_slot
check_slots paths names seen [] = ok []
check_slots paths names seen (s ∷ slots) =
    let rest = λ (slot : Slot).
      check_slots paths (slot.name ∷ names) (paths.normalized_path slot.socket_path ∷ seen) slots in
    do
      slot ← new_slot paths s.name s.socket_path
      if member slot.name names || member (paths.normalized_path slot.socket_path) seen
          then err unavailable
          else do others ← rest slot; ok (slot ∷ others)

-- Equality of the struct, as a key of a map.
abbrev pub same_slot : Slot → Slot → Bool
same_slot s t = str_eq s.name t.name && str_eq s.socket_path t.socket_path

pub same_slot-eq : (s t : Slot) → same_slot s t ≡ true → s ≡ t
same_slot-eq s t h = ground (arith, eq_iff s.name t.name, eq_iff s.socket_path t.socket_path)

pub same_slot_refl : (s : Slot) → same_slot s s ≡ true
same_slot_refl s = ground (arith, eq_iff s.name s.name, eq_iff s.socket_path s.socket_path)

abbrev pub count : Slot → List Slot → ℕ
count s [] = 0
count s (t ∷ ts) = if same_slot t s then suc (count s ts) else count s ts
