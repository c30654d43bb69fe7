-- ===== src/Signal/Abi.antt =====
-- Vtable layouts: backend/src/repo-manager/signal/abi.ts. A `Record` of the source is an
-- association list in its own order.
pub mod Drift
use chaotic_next.Base.{
  ℕ, zero, suc, ◌+◌, Bool, true, false, not, ◌&&◌, Option, none, some, List, [], ◌∷◌, ◌++◌, map,
  Text, codes, text_eq, ◌==◌, has, is_empty, keep, all, drop, length, get_elem?, starts_with,
  or_else, ltb, leb, flat_map, if◌then◌else◌,
}
use chaotic_next.Base.Map.{get}
use chaotic_next.Base.Sort.{sort}

pub record RelocationEntry : Type 0 where
  pub offset : ℕ
  pub type : Text
  pub symbol : Option Text

pub record NmSymbolWithSize : Type 0 where
  pub address : ℕ
  pub size : ℕ
  pub type : Text
  pub name : Text

pub record VtableSlots : Type 0 where
  pub symbol : Text
  pub slots : List Text

-- `r.type === 'R_X86_64_64' && r.symbol`
abbrev is_absolute : RelocationEntry → Bool
is_absolute r = r.type == codes "R_X86_64_64" && not (is_empty (or_else r.symbol []))

abbrev is_vtable : NmSymbolWithSize → Bool
is_vtable s = starts_with (codes "_ZTV") s.name && ltb 0 s.size

abbrev is_inside : NmSymbolWithSize → RelocationEntry → Bool
is_inside vtable r = leb vtable.address r.offset && ltb r.offset (vtable.address + vtable.size)

-- The names that are there and do not begin with `_ZTI`.
abbrev slot_name : Option Text → List Text
slot_name none = []
slot_name (some name) = if starts_with (codes "_ZTI") name then [] else name ∷ []

abbrev slots_of : List RelocationEntry → NmSymbolWithSize → List Text
slots_of abs vtable =
    flat_map (λ r. slot_name r.symbol)
      (sort (λ a b. leb a.offset b.offset) (keep (is_inside vtable) abs))

unfoldable pub extract_vtable_slots :
    List RelocationEntry → List NmSymbolWithSize → List VtableSlots
unfolding sort starts_with
extract_vtable_slots relocations symbols =
    let abs = keep is_absolute relocations in
    keep (λ v. not (is_empty v.slots))
      (map (λ vtable. record { symbol = vtable.name; slots = slots_of abs vtable })
        (keep is_vtable symbols))

pub data VtableDrift : Type 0 where
  compatible broken : VtableDrift

-- `newSlots[i] === slot`
abbrev pub slot_at : List Text → ℕ → Text → Bool
slot_at slots i slot = elim (get_elem? slots i) [ none ↦ false | some s ↦ s == slot ]

-- `every` and `findIndex` with the index of the element.
all_at : List Text → ℕ → List Text → Bool
all_at new i [] = true
all_at new i (slot ∷ slots) = slot_at new i slot && all_at new (suc i) slots

first_mismatch : List Text → ℕ → List Text → Option ℕ
first_mismatch new i [] = none
first_mismatch new i (slot ∷ slots) =
    if not (slot_at new i slot) then some i else first_mismatch new (suc i) slots

unfoldable pub classify_vtable_drift : List Text → List Text → VtableDrift
unfolding all_at
classify_vtable_drift old new =
    if is_empty old
    then compatible
    else if ltb (length new) (length old)
    then broken
    else if all_at new 0 old
    then compatible
    else broken

pub record DriftedVtable : Type 0 where
  pub vtable : Text
  pub shifted_slots : List Text

-- The slots from the first mismatch on, all of them where there is none.
abbrev from_mismatch : Option ℕ → List Text → List Text
from_mismatch none old = old
from_mismatch (some i) old = drop i old

unfoldable pub shifted_slots : List Text → List Text → List Text
unfolding first_mismatch
shifted_slots old new = from_mismatch (first_mismatch new 0 old) old

abbrev pub push_drift : VtableDrift → DriftedVtable → List DriftedVtable → List DriftedVtable
push_drift compatible drift rest = rest
push_drift broken drift rest = drift ∷ rest

unfoldable pub find_vtable_drifts :
    List (Text × List Text) → List (Text × List Text) → List DriftedVtable
unfolding classify_vtable_drift shifted_slots
find_vtable_drifts [] new_vtables = []
find_vtable_drifts ((vtable, old) ∷ vtables) new_vtables =
    let new = or_else (get vtable new_vtables) [] in
    push_drift (classify_vtable_drift old new)
      (record { vtable = vtable; shifted_slots = shifted_slots old new })
      (find_vtable_drifts vtables new_vtables)

pub record VtableSlotBreak : Type 0 where
  pub vtable : Text
  pub slot : Text

unfoldable pub find_vtable_breaks :
    List Text → List (Text × List Text) → List (Text × List Text) → List VtableSlotBreak
unfolding find_vtable_drifts
find_vtable_breaks consumer_imports old_vtables new_vtables =
    flat_map
      (λ drift.
        map (λ slot. record { vtable = drift.vtable; slot = slot })
          (keep (λ slot. has slot consumer_imports) drift.shifted_slots))
      (find_vtable_drifts old_vtables new_vtables)

-- `ConsumerAbiBreak` is a symbol break or a vtable break.
pub data ConsumerAbiBreak : Type 0 where
  symbol_break : (symbol soname pkgname : Text) (pkg_id : ℕ) → ConsumerAbiBreak
  vtable_break : (slot vtable pkgname : Text) (pkg_id : ℕ) → ConsumerAbiBreak

unfoldable pub format_consumer_abi_break : ConsumerAbiBreak → Text
format_consumer_abi_break (symbol_break symbol soname pkgname pkg_id) =
    pkgname ++ (codes ": " ++ (soname ++ (codes ": symbol " ++ (symbol ++ codes " missing"))))
format_consumer_abi_break (vtable_break slot vtable pkgname pkg_id) =
    pkgname ++ (codes ": vtable drift (" ++ (vtable ++ codes ")"))
