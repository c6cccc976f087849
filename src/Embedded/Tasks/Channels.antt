-- ===== src/Embedded/Tasks/Channels.antt =====
-- crates/themql-embedded/src/main.rs: what the loops over a channel need of it.
use the_mql.Base.{
  ℕ, zero, suc, ◌≤◌, Option, none, some, List, [], ◌∷◌, ◌++◌, length, length-append, ltb,
  if◌then◌else◌, ◌≡◌, refl, ap₂, ◌∙◌, arith, Bool-cases, inl, inr,
}
use the_mql.Embedded.Tasks.{Channel, received, drain}

-- A queue with its oldest value taken off.
abbrev pub front : {A : Type 0} → List A → Option (A × List A)
front [] = none
front (a ∷ queue) = some (a, queue)

-- A queue of a capacity after a value is offered to it.
abbrev pub offered : {A : Type 0} → ℕ → A → List A → List A
offered capacity a queue = if ltb (length queue) capacity then queue ++ a ∷ [] else queue

abbrev pub seen : {A C : Type 0} → (C → List A) → Option (A × C) → Option (A × List A)
seen contents none = none
seen contents (some (a, c)) = some (a, contents c)

-- What `embassy_sync` says of a `Channel` of a capacity: first in, first out, and a value that does
-- not fit is not taken.
pub record Fifo {A C : Type 0} (channel : Channel A C) (capacity : ℕ) : Type 0 where
  pub empty-contents : channel.contents channel.empty ≡ []
  pub send-contents :
      (a : A) (c : C)
      → channel.contents (channel.try_send a c) ≡ offered capacity a (channel.contents c)
  pub receive-front :
      (c : C) → seen channel.contents (channel.try_receive c) ≡ front (channel.contents c)

-- The body run on each value, the oldest first.
abbrev pub fold : {A S : Type 0} → (A → S → S) → List A → S → S
fold body [] s = s
fold body (a ∷ queue) s = fold body queue (body a s)

module _ {A C : Type 0} {channel : Channel A C} {capacity : ℕ} (fifo : Fifo channel capacity) where
  pub send-fits :
      (a : A) (c : C)
      → length (channel.contents c) ≤ capacity
      → length (channel.contents (channel.try_send a c)) ≤ capacity
  send-fits a c h = elim (Bool-cases (ltb (length (channel.contents c)) capacity)) [
    | inl e ↦
        rw (fifo.send-contents a c, e) (ground (arith, length-append (channel.contents c) (a ∷ [])))
    | inr e ↦ rw (fifo.send-contents a c, e) h
  ]

  -- What a loop made of the values of a queue, and of the channel.
  abbrev pub Drained : {S : Type 0} → (A → S → S) → List A → S → S × C → Type 0
  Drained body queue s (end, c) = (end ≡ fold body queue s) × (channel.contents c ≡ [])

  after_receive :
      {S : Type 0} (body : A → S → S) (n : ℕ)
      (next : (c : C) (s : S)
        → length (channel.contents c) ≤ n
        → Drained body (channel.contents c) s (drain channel body n c s))
      (c : C) (s : S) (queue : List A) (got : Option (A × C))
      → channel.contents c ≡ queue
      → length queue ≤ suc n
      → seen channel.contents got ≡ front queue
      → Drained body queue s (received got (s, c) (λ a d. drain channel body n d (body a s)))
  after_receive body n next c s [] none q h e = (refl, q)
  after_receive body n next c s [] (some (a, d)) q h e = cc
  after_receive body n next c s (b ∷ queue) none q h e = cc
  after_receive body n next c s (b ∷ queue) (some (a, d)) q h e =
      let p : a ≡ b = cc in
      let r : channel.contents d ≡ queue = cc in
      let (ended, emptied) = next d (body a s) (rw r (omega arith)) in
      (ended ∙ ap₂ (λ x y. fold body x (body y s)) r p, emptied)

  length-eq-nil : (queue : List A) → length queue ≤ 0 → queue ≡ []
  length-eq-nil [] h = refl
  length-eq-nil (a ∷ queue) h = absurd (omega arith)

  pub drain-Drained :
      {S : Type 0} (body : A → S → S) (n : ℕ) (c : C) (s : S)
      → length (channel.contents c) ≤ n
      → Drained body (channel.contents c) s (drain channel body n c s)
  unfolding drain
  drain-Drained body zero c s h =
      let none_left = length-eq-nil (channel.contents c) h in (rw none_left refl, none_left)
  drain-Drained body (suc n) c s h =
      after_receive body n (drain-Drained body n) c s (channel.contents c) (channel.try_receive c)
        refl h (fifo.receive-front c)
