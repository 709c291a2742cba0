-- ===== src/Engine/Restore.antt =====
-- Each edit of the harmony events against the edit that takes it back.
use unidaw.Base.{
  ℕ, suc, ◌≤◌, ◌≡◌, refl, sym, ap, ap₂, subst, ◌∙◌, List, [], ◌∷◌, none, some, inl, inr, All,
}
use unidaw.Harmony.{HarmonyEvent}
use unidaw.Engine.HarmonyEdits.{new_event, write_event, erase_event}
use unidaw.Engine.Timeline.{
  IsTimeline, tick_cases, write_below, write_here, write_above, erase_below, erase_here,
  erase_above,
}

-- What was inserted is found and taken out again.
pub erase_written :
    (t r s : ℕ) (es : List HarmonyEvent)
    → (write_event es t r s).0 ≡ none
    → erase_event (write_event es t r s).1 t ≡ (some (new_event t r s), es)
unfolding write_event
erase_written t r s [] z = erase_here (new_event t r s) [] t refl
erase_written t r s (e ∷ es) z = elim (tick_cases e.nanotick t) [
  | inl lt ↦
      let ih = erase_written t r s es (sym (ap (λ x. x.0) (write_below e es t r s lt)) ∙ z) in
      rw (write_below e es t r s lt)
        (erase_below e (write_event es t r s).1 t lt ∙ ap (λ x. (x.0, e ∷ x.1)) ih)
  | inr (inl eq) ↦ cc (sym z ∙ ap (λ x. x.0) (write_here e es t r s eq))
  | inr (inr gt) ↦ rw (write_above e es t r s gt) (erase_here (new_event t r s) (e ∷ es) t refl)
]

some_inj : {A : Type 0} {a b : A} → some a ≡ some b → a ≡ b
some_inj e = cc

put_back :
    (e : HarmonyEvent) (t : ℕ) → e.nanotick ≡ t → e.flags ≡ 0 → new_event t e.root e.scale_id ≡ e
put_back e t eq z =
    ap₂ (λ n f. record { nanotick = n; root = e.root; scale_id = e.scale_id; flags = f }) (sym eq)
      (sym z)

write_front :
    (t r s : ℕ) (es : List HarmonyEvent)
    → All (λ x. suc t ≤ x.nanotick) es
    → write_event es t r s ≡ (none, new_event t r s ∷ es)
unfolding write_event
write_front t r s [] h = refl
write_front t r s (e ∷ es) h = write_above e es t r s h.0

-- What was changed is changed back.
pub write_over :
    (t r s : ℕ) (es : List HarmonyEvent) {p : HarmonyEvent}
    → (write_event es t r s).0 ≡ some p
    → write_event (write_event es t r s).1 t p.root p.scale_id
      ≡ (some (record p { root = r; scale_id = s }), es)
unfolding write_event
write_over t r s [] {p} z = cc z
write_over t r s (e ∷ es) {p} z = elim (tick_cases e.nanotick t) [
  | inl lt ↦
      let ih = write_over t r s es (sym (ap (λ x. x.0) (write_below e es t r s lt)) ∙ z) in
      rw (write_below e es t r s lt) (
        write_below e (write_event es t r s).1 t p.root p.scale_id lt ∙ ap (λ x. (x.0, e ∷ x.1)) ih)
  | inr (inl eq) ↦
      let now = record e { root = r; scale_id = s } in
      rw (write_here e es t r s eq) (
        subst
          (λ q.
            write_event (now ∷ es) t q.root q.scale_id
            ≡ (some (record q { root = r; scale_id = s }), e ∷ es))
          (some_inj (sym (ap (λ x. x.0) (write_here e es t r s eq)) ∙ z))
          (write_here now es t e.root e.scale_id eq))
  | inr (inr gt) ↦ cc (sym z ∙ ap (λ x. x.0) (write_above e es t r s gt))
]

-- What was taken out is put back in its place.
pub write_erased :
    (t : ℕ) (es : List HarmonyEvent) {p : HarmonyEvent}
    → IsTimeline es
    → (erase_event es t).0 ≡ some p
    → write_event (erase_event es t).1 t p.root p.scale_id ≡ (none, es)
unfolding erase_event
write_erased t [] {p} h z = cc z
write_erased t (e ∷ es) {p} h z = elim (tick_cases e.nanotick t) [
  | inl lt ↦
      let ih = write_erased t es h.2 (sym (ap (λ x. x.0) (erase_below e es t lt)) ∙ z) in
      rw (erase_below e es t lt)
        (write_below e (erase_event es t).1 t p.root p.scale_id lt ∙ ap (λ x. (x.0, e ∷ x.1)) ih)
  | inr (inl eq) ↦ rw (erase_here e es t eq) (
      subst (λ q. write_event es t q.root q.scale_id ≡ (none, e ∷ es))
        (some_inj (sym (ap (λ x. x.0) (erase_here e es t eq)) ∙ z))
        (write_front t e.root e.scale_id es (subst (λ n. All (λ x. suc n ≤ x.nanotick) es) eq h.1)
          ∙ ap (λ x. (none, x ∷ es)) (put_back e t eq h.0)))
  | inr (inr gt) ↦ cc (sym z ∙ ap (λ x. x.0) (erase_above e es t gt))
]
