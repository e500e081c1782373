-- ===== src/Agent/Tick/Span.antt =====
-- The activity spans that a tick emits and buffers.
use mathlib.Core.Path.{subst}
use timekpr_next_hub.Base.{
  ℕ, zero, suc, ◌+◌, ◌-◌, ◌≤◌, ◌≡◌, refl, ap, Bool, true, false, some, List, [], ◌∷◌, ◌++◌, arith,
  ltb, length, drop, if◌then◌else◌, if-elim, length-append, length-drop, inl, inr, ltb→lt, ◌&&◌,
  ◌⊎◌,
}
use timekpr_next_hub.Base.Int.{ℤ, pos, negsuc, ◌-ℤ◌, ◌≤ℤ◌, ◌<ℤ◌, int_laws, max_ℤ, ltb_ℤ, eqb_ℤ}
use timekpr_next_hub.Agent.Timekpr.{UserObservation}
use timekpr_next_hub.Agent.State.{ActiveSpan, UserState}
use timekpr_next_hub.Agent.Tick.{emit_span, buffer_unsent_span, max_pending_spans, seconds}

-- What holds of an emitted span: it ends now, it is the use of this tick at most, it begins no
-- earlier than the last reported span ended, and no later than it ends.
pub record IsFresh (us : UserState) (now : ℤ) (span : ActiveSpan) : Type 0 where
  pub ends_now : span.end ≡ now
  pub burns : pos 0 <ℤ span.burned_s
  pub no_longer : span.end -ℤ span.start ≤ℤ seconds span.burned_s
  pub after_last : (us.last_tick_utc ≡ pos 0) ⊎ (us.last_tick_utc ≤ℤ span.start)
  pub ordered : (now <ℤ us.last_tick_utc) ⊎ (span.start ≤ℤ span.end)

max-le_left : (a b : ℤ) → a ≤ℤ max_ℤ a b
unfolding max_ℤ
max-le_left a b = ground arith

max-le_right : (a b : ℤ) → b ≤ℤ max_ℤ a b
unfolding max_ℤ
max-le_right a b = ground arith

max-least : (a b c : ℤ) → a ≤ℤ c → b ≤ℤ c → max_ℤ a b ≤ℤ c
unfolding max_ℤ
max-least a b c h k = ground arith

seconds_pos : (s : ℤ) → pos 0 <ℤ s → pos 0 ≤ℤ seconds s
seconds_pos (pos s) h = omega arith
seconds_pos (negsuc s) h = omega arith

ltb-false : (a b : ℕ) → ltb a b ≡ false → b ≤ a
ltb-false a b h = ground arith

eqb_zero : (a : ℤ) → eqb_ℤ a (pos 0) ≡ true → a ≡ pos 0
eqb_zero a h = ground arith

before_or_not : (last now : ℤ) → (now <ℤ last) ⊎ (last ≤ℤ now)
before_or_not last now = ground arith

-- The start is clamped to the end of the last span, if there was one.
clamped_start-IsFresh :
    (us : UserState) (burned now : ℤ)
    → pos 0 <ℤ burned
    → IsFresh us now (record {
      start =
          if eqb_ℤ us.last_tick_utc (pos 0)
          then now -ℤ seconds burned
          else max_ℤ (now -ℤ seconds burned) us.last_tick_utc;
      end = now;
      burned_s = burned;
    })
clamped_start-IsFresh us burned now burns =
    if-elim (λ start. IsFresh us now (record { start = start; end = now; burned_s = burned }))
      (eqb_ℤ us.last_tick_utc (pos 0)) _ _
      (λ first. record {
        ends_now = refl;
        burns = burns;
        no_longer = omega int_laws;
        after_last = inl (eqb_zero us.last_tick_utc first);
        ordered = inr (omega (int_laws, seconds_pos burned burns));
      })
      (λ again. record {
        ends_now = refl;
        burns = burns;
        no_longer = omega (int_laws, max-le_left (now -ℤ seconds burned) us.last_tick_utc);
        after_last = inr (max-le_right (now -ℤ seconds burned) us.last_tick_utc);
        ordered = elim (before_or_not us.last_tick_utc now) [
          | inl back ↦ inl back
          | inr h ↦ inr (
              max-least (now -ℤ seconds burned) us.last_tick_utc now
                (omega (int_laws, seconds_pos burned burns)) h)
        ];
      })

of_some :
    (us : UserState) (now : ℤ) (a b : ActiveSpan)
    → some a ≡ some b
    → IsFresh us now a
    → IsFresh us now b
of_some us now a b e h = let same : a ≡ b = cc in subst (IsFresh us now) same h

burns_of : (active : Bool) (burned : ℤ) → (active && ltb_ℤ (pos 0) burned) ≡ true → pos 0 <ℤ burned
burns_of active burned h = ground arith

-- A span that a tick emits ends at the tick and stands for use in it; it is no longer than that use,
-- begins no earlier than the last span that reached the hub ended, where there was one, and, unless
-- the clock has gone back since, no later than it ends.
pub emit_span-IsFresh :
    (us : UserState) (obs : UserObservation) (burned now : ℤ) (span : ActiveSpan)
    → emit_span us obs burned now ≡ some span
    → IsFresh us now span
unfolding emit_span
emit_span-IsFresh us obs burned now span =
    if-elim (λ emitted. emitted ≡ some span → IsFresh us now span)
      (obs.active && ltb_ℤ (pos 0) burned) _ _
      (λ moved e.
        of_some us now _ span e
          (clamped_start-IsFresh us burned now (burns_of obs.active burned moved)))
      (λ still e. cc)

-- Dropping from the front keeps the rest.
drop-suffix {ℓ} : {A : Type ℓ} (n : ℕ) (xs : List A) → (front : List A) × (xs ≡ front ++ drop n xs)
drop-suffix zero xs = ([], refl)
drop-suffix (suc n) [] = ([], refl)
drop-suffix (suc n) (x ∷ xs) = let (front, e) = drop-suffix n xs in (x ∷ front, ap (λ ys. x ∷ ys) e)

-- What is buffered is bounded, and only the oldest spans are dropped for that: the buffer with the
-- new span is some front, which is empty while there is room, followed by the new buffer.
pub buffer_unsent_span-keeps :
    (us : UserState) (span : ActiveSpan)
    → length us.pending_spans ≤ max_pending_spans
    → let us' = buffer_unsent_span us (some span) in
      (length us'.pending_spans ≤ max_pending_spans)
      × ((front : List ActiveSpan) × (us.pending_spans ++ span ∷ [] ≡ front ++ us'.pending_spans)
          × ((front ≡ []) ⊎ (max_pending_spans ≤ length us.pending_spans)))
unfolding buffer_unsent_span
buffer_unsent_span-keeps us span h =
    let pending = us.pending_spans ++ span ∷ [] in
    let counted : length pending ≡ length us.pending_spans + 1 =
      length-append us.pending_spans (span ∷ []) in
    if-elim
      (λ kept.
        (length kept ≤ max_pending_spans)
        × ((front : List ActiveSpan) × (pending ≡ front ++ kept)
            × ((front ≡ []) ⊎ (max_pending_spans ≤ length us.pending_spans))))
      (ltb max_pending_spans (length pending)) _ _
      (λ full.
        let (front, e) = drop-suffix (length pending - max_pending_spans) pending in
        (
          omega (arith, length-drop (length pending - max_pending_spans) pending),
          (front, e, inr (omega (arith, ltb→lt _ _ full))),
        ))
      (λ fits. (omega (arith, ltb-false _ _ fits), ([], refl, inl refl)))
