-- ===== src/Scan/PluginBreaks/Losses.antt =====
-- Which symbols count as lost.
use mathlib.Core.List.{Memᴰ}
use mathlib.Core.List.Memᴰ
use mathlib.Core.Path.{subst}
use chaotic_next.Base.{
  ◌≡◌, ◌≢◌, refl, sym, ap, ◌∙◌, inl, inr, ◌⊎◌, Option, none, some, List, [], ◌∷◌, Text, text_eq,
  is_empty, if◌then◌else◌,
}
use chaotic_next.Base.Map.{get}
use chaotic_next.Signal.Broken.{Nodes}
use chaotic_next.Scan.Records.{OwnerDescriptor}
use chaotic_next.Scan.PluginBreaks.{PluginBreakEntry, lost_from, loss_of, symbol_losses}

-- A reported loss: a soname that both versions export, and exactly the symbols of it that the
-- previous version exported and the current one does not.
pub record IsLoss (owner : OwnerDescriptor) (previous current : Nodes) (entry : PluginBreakEntry)
    : Type 0 where
  pub before : List Text
  pub now : List Text
  pub was_exported : Memᴰ (entry.soname, before) previous
  pub is_exported : get entry.soname current ≡ some now
  pub lost : entry.lost_symbols ≡ lost_from before now
  pub some_lost : entry.lost_symbols ≢ []
  pub of_owner : entry.pkg_id ≡ owner.pkg_id

IsLoss-later :
    (owner : OwnerDescriptor) (row : Text × List Text) {previous current : Nodes}
    {entry : PluginBreakEntry}
    → IsLoss owner previous current entry
    → IsLoss owner (row ∷ previous) current entry
IsLoss-later owner row l = record {
  before = l.before;
  now = l.now;
  was_exported = Memᴰ.tail l.was_exported;
  is_exported = l.is_exported;
  lost = l.lost;
  some_lost = l.some_lost;
  of_owner = l.of_owner;
}

abbrev entry_for : OwnerDescriptor → Text → List Text → PluginBreakEntry
entry_for owner soname lost = record {
  pkgname = owner.pkgname;
  pkg_id = owner.pkg_id;
  soname = soname;
  lost_symbols = lost;
}

loss_of-cases :
    (owner : OwnerDescriptor) (soname : Text) (before : List Text) (now : Option (List Text))
    (rest : List PluginBreakEntry) {entry : PluginBreakEntry}
    → Memᴰ entry (loss_of owner soname before now rest)
    → ((current : List Text) × ((now ≡ some current)
          × ((entry ≡ entry_for owner soname (lost_from before current))
              × (lost_from before current ≢ []))))
      ⊎ Memᴰ entry rest
loss_of-cases owner soname before none rest m = inr m
loss_of-cases owner soname before (some current) rest m = pick (lost_from before current) refl m
  where
    pick :
        (lost : List Text) {entry : PluginBreakEntry}
        → lost ≡ lost_from before current
        → Memᴰ entry (if is_empty lost then rest else entry_for owner soname lost ∷ rest)
        → ((now : List Text) × ((some current ≡ some now)
              × ((entry ≡ entry_for owner soname (lost_from before now))
                  × (lost_from before now ≢ []))))
          ⊎ Memᴰ entry rest
    pick [] e m = inr m
    pick (s ∷ ss) e (Memᴰ.head p) =
        inl (current, (refl, (p ∙ ap (entry_for owner soname) e, λ n. cc)))
    pick (s ∷ ss) e (Memᴰ.tail m) = inr m

-- Every entry reported for an owner is a loss: its soname is exported by both versions, and its
-- symbols, at least one, are those that the previous version exported and the current one does not.
pub symbol_losses-IsLoss :
    (owner : OwnerDescriptor) (previous current : Nodes) {entry : PluginBreakEntry}
    → Memᴰ entry (symbol_losses owner previous current)
    → IsLoss owner previous current entry
unfolding symbol_losses
symbol_losses-IsLoss owner [] current m = absurd (Memᴰ.not-nil m)
symbol_losses-IsLoss owner ((soname, before) ∷ previous) current {entry} m =
    elim (loss_of-cases owner soname before (get soname current) _ m) [
      | inl (now, (found, (same, some_lost))) ↦
          subst (IsLoss owner ((soname, before) ∷ previous) current) (sym same) (record {
            before = before;
            now = now;
            was_exported = Memᴰ.head refl;
            is_exported = found;
            lost = refl;
            some_lost = some_lost;
            of_owner = refl;
          })
      | inr later ↦
          IsLoss-later owner (soname, before) (symbol_losses-IsLoss owner previous current later)
    ]
