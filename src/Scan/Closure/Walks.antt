-- ===== src/Scan/Closure/Walks.antt =====
-- The worklist loop of the closure against an inductive account of what an installation pulls in:
-- its fuel and its invariants.
use mathlib.Core.List.{Memᴰ}
use mathlib.Core.Path.{subst}
use mathlib.Core.Option.{some-injective, none-ne-some}
use chaotic_next.Base.{
  ℕ, zero, suc, ◌+◌, ◌≤◌, ◌≡◌, refl, sym, ◌∙◌, inl, inr, ◌⊎◌, true, false, some, List, [], ◌∷◌, map,
  Text, text_eq, has, ◌==◌, eq_self, length, Bool-cases, arith,
}
use chaotic_next.Base.MultiMap.{entry, entry-fill, listed-mem, mem-listed}
use chaotic_next.Scan.Closure.{
  DependencyRecord, clean_dep_name, names_of, wants_of, visit, walk, new_closure,
}
use chaotic_next.Scan.Closure.Loop.{
  left_over, visit-keeps, visit-keeps_stack, visit-reaches, visit-ReachedBy, visit-stack,
  visit-work,
}

-- A record of the closure that answers to a name.
abbrev pub Answers : List DependencyRecord → Text → DependencyRecord → Type 0
Answers records n r = Memᴰ r records × (has n (names_of r) ≡ true)

-- The names that are wanted: those asked for, and the dependencies of what answers to one.
pub data Wanted (records : List DependencyRecord) (deps : List Text) : Text → Type 0 where
  asked : {n : Text} → has n (map clean_dep_name deps) ≡ true → Wanted records deps n
  pulled :
      {m n : Text} (r : DependencyRecord)
      → Wanted records deps m
      → Answers records m r
      → has n (wants_of r) ≡ true
      → Wanted records deps n

-- A package is pulled in when a record of that name answers to a wanted name.
pub record IsPulled (records : List DependencyRecord) (deps : List Text) (p : Text) : Type 0 where
  pub name : Text
  pub by : DependencyRecord
  pub wanted : Wanted records deps name
  pub answers : Answers records name by
  pub named : p ≡ by.pkgname

module _ (records : List DependencyRecord) where
  Answers-mem :
      (n : Text) (r : DependencyRecord)
      → Memᴰ r (entry n (new_closure records))
      → Answers records n r
  unfolding new_closure
  Answers-mem n r m =
      listed-mem names_of n r records (subst (Memᴰ r) (entry-fill names_of n records []) m)

  mem-Answers :
      (n : Text) (r : DependencyRecord)
      → Answers records n r
      → Memᴰ r (entry n (new_closure records))
  unfolding new_closure
  mem-Answers n r (m, h) =
      subst (Memᴰ r) (sym (entry-fill names_of n records [])) (mem-listed names_of n r records m h)

  -- The loop ends: fuel for the stack and for the dependencies of what is not reached is enough.
  pub walk-enough :
      (fuel : ℕ) (stack visited reached : List Text)
      → length stack + left_over reached records ≤ fuel
      → (out : List Text) × (walk (new_closure records) fuel stack visited reached ≡ some out)
  unfolding walk
  walk-enough fuel [] visited reached h = (reached, refl)
  walk-enough zero (name ∷ stack) visited reached h = absurd (omega arith)
  walk-enough (suc fuel) (name ∷ stack) visited reached h = elim (Bool-cases (has name visited)) [
    | inl old ↦ rw old (walk-enough fuel stack visited reached (omega arith))
    | inr fresh ↦
        let work =
          visit-work records reached stack (entry name (new_closure records))
            (λ r m. (Answers-mem name r m).0) in
        let next = visit reached stack (entry name (new_closure records)) in
        rw fresh (walk-enough fuel next.1 (name ∷ visited) next.0 (omega (arith, work)))
  ]

abbrev pub Seen : List Text → List Text → Text → Type 0
Seen stack visited n = (has n visited ≡ true) ⊎ (has n stack ≡ true)

pub record Sound (records : List DependencyRecord) (deps : List Text) (stack reached : List Text)
    : Type 0 where
  pub stack_wanted : (n : Text) → has n stack ≡ true → Wanted records deps n
  pub reached_pulled : (p : Text) → has p reached ≡ true → IsPulled records deps p

-- A record of a reached package whose dependencies are all seen.
pub record Expanded (records : List DependencyRecord) (stack visited : List Text) (p : Text)
    : Type 0 where
  pub by : DependencyRecord
  pub listed : Memᴰ by records
  pub named : p ≡ by.pkgname
  pub seen : (n : Text) → has n (wants_of by) ≡ true → Seen stack visited n

pub record Closed (records : List DependencyRecord) (deps : List Text)
    (stack visited reached : List Text) : Type 0 where
  pub asked_seen : (n : Text) → has n (map clean_dep_name deps) ≡ true → Seen stack visited n
  pub answered :
      (m : Text) (r : DependencyRecord)
      → has m visited ≡ true
      → Answers records m r
      → has r.pkgname reached ≡ true
  pub expanded : (p : Text) → has p reached ≡ true → Expanded records stack visited p

module _ (records : List DependencyRecord) (deps : List Text) where
  Sound-visit :
      (name : Text) (stack reached : List Text)
      → Sound records deps (name ∷ stack) reached
      → Sound records deps
          (visit reached stack (entry name (new_closure records))).1
          (visit reached stack (entry name (new_closure records))).0
  Sound-visit name stack reached s =
      let found = entry name (new_closure records) in
      let wanted : Wanted records deps name = s.stack_wanted name (ground (arith, eq_self name)) in
      record {
        stack_wanted = λ n h. elim (visit-stack n reached stack found h) [
          | inl before ↦ s.stack_wanted n (ground (arith, before))
          | inr (r, m, w) ↦ pulled r wanted (Answers-mem records name r m) w
        ];
        reached_pulled = λ p h. elim (visit-ReachedBy p reached stack found h) [
          | inl before ↦ s.reached_pulled p before
          | inr b ↦ record {
            name = name;
            by = b.by;
            wanted = wanted;
            answers = Answers-mem records name b.by b.listed;
            named = b.named;
          }
        ];
      }

  Seen-visit :
      (n name : Text) (stack visited reached : List Text)
      → Seen (name ∷ stack) visited n
      → Seen (visit reached stack (entry name (new_closure records))).1 (name ∷ visited) n
  Seen-visit n name stack visited reached (inl h) = inl (ground (arith, h))
  Seen-visit n name stack visited reached (inr h) = elim (Bool-cases (name == n)) [
    | inl same ↦ inl (ground (arith, same))
    | inr other ↦ inr (
        visit-keeps_stack n reached stack (entry name (new_closure records))
          (ground (arith, h, other)))
  ]

  Closed-visit :
      (name : Text) (stack visited reached : List Text)
      → Closed records deps (name ∷ stack) visited reached
      → Closed records deps
          (visit reached stack (entry name (new_closure records))).1
          (name ∷ visited)
          (visit reached stack (entry name (new_closure records))).0
  Closed-visit name stack visited reached c =
      let found = entry name (new_closure records) in
      record {
        asked_seen = λ n h. Seen-visit n name stack visited reached (c.asked_seen n h);
        answered = λ m r h a. elim (Bool-cases (name == m)) [
          | inl same ↦ visit-reaches reached stack found (
              mem-Answers records name r
                (subst (λ k. Answers records k r) (sym ((text_eq.beq_iff name m).0 same)) a))
          | inr other ↦
              visit-keeps r.pkgname reached stack found
                (c.answered m r (ground (arith, h, other)) a)
        ];
        expanded = λ p h. elim (visit-ReachedBy p reached stack found h) [
          | inl before ↦
              let e = c.expanded p before in
              record {
                by = e.by;
                listed = e.listed;
                named = e.named;
                seen = λ n w. Seen-visit n name stack visited reached (e.seen n w);
              }
          | inr b ↦ record {
            by = b.by;
            listed = (Answers-mem records name b.by b.listed).0;
            named = b.named;
            seen = λ n w. inr (b.pushed n w);
          }
        ];
      }

  Seen-skip :
      (n name : Text) (stack visited : List Text)
      → has name visited ≡ true
      → Seen (name ∷ stack) visited n
      → Seen stack visited n
  Seen-skip n name stack visited old (inl h) = inl h
  Seen-skip n name stack visited old (inr h) = elim (Bool-cases (name == n)) [
    | inl same ↦ inl (subst (λ k. has k visited ≡ true) ((text_eq.beq_iff name n).0 same) old)
    | inr other ↦ inr (ground (arith, h, other))
  ]

  Closed-skip :
      (name : Text) (stack visited reached : List Text)
      → has name visited ≡ true
      → Closed records deps (name ∷ stack) visited reached
      → Closed records deps stack visited reached
  Closed-skip name stack visited reached old c = record {
    asked_seen = λ n h. Seen-skip n name stack visited old (c.asked_seen n h);
    answered = c.answered;
    expanded = λ p h.
        let e = c.expanded p h in
        record {
          by = e.by;
          listed = e.listed;
          named = e.named;
          seen = λ n w. Seen-skip n name stack visited old (e.seen n w);
        };
  }

  walk-old :
      (fuel : ℕ) (name : Text) (stack visited reached : List Text)
      → has name visited ≡ true
      → walk (new_closure records) (suc fuel) (name ∷ stack) visited reached
        ≡ walk (new_closure records) fuel stack visited reached
  unfolding walk
  walk-old fuel name stack visited reached old = rw old refl

  walk-fresh :
      (fuel : ℕ) (name : Text) (stack visited reached : List Text)
      → has name visited ≡ false
      → walk (new_closure records) (suc fuel) (name ∷ stack) visited reached
        ≡ walk
            (new_closure records)
            fuel
            (visit reached stack (entry name (new_closure records))).1
            (name ∷ visited)
            (visit reached stack (entry name (new_closure records))).0
  unfolding walk
  walk-fresh fuel name stack visited reached fresh = rw fresh refl

  -- What holds when the loop has ended.
  pub walk-lem :
      (fuel : ℕ) (stack visited reached : List Text) {out : List Text}
      → Sound records deps stack reached
      → Closed records deps stack visited reached
      → walk (new_closure records) fuel stack visited reached ≡ some out
      → Sound records deps [] out × ((seen : List Text) × Closed records deps [] seen out)
  unfolding walk
  walk-lem fuel [] visited reached s c e =
      let same : reached ≡ _ = some-injective _ _ e in
      (
        subst (Sound records deps []) same s,
        (visited, subst (Closed records deps [] visited) same c),
      )
  walk-lem zero (name ∷ stack) visited reached s c e = absurd (none-ne-some _ e)
  walk-lem (suc fuel) (name ∷ stack) visited reached s c e = elim (Bool-cases (has name visited)) [
    | inl old ↦
        walk-lem fuel stack visited reached
          (record {
            stack_wanted = λ n h. s.stack_wanted n (ground (arith, h));
            reached_pulled = s.reached_pulled;
          })
          (Closed-skip name stack visited reached old c)
          (sym (walk-old fuel name stack visited reached old) ∙ e)
    | inr fresh ↦
        let next = visit reached stack (entry name (new_closure records)) in
        walk-lem fuel next.1 (name ∷ visited) next.0 (Sound-visit name stack reached s)
          (Closed-visit name stack visited reached c)
          (sym (walk-fresh fuel name stack visited reached fresh) ∙ e)
  ]
