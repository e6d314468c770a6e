-- ===== src/Dispatch/Subscribers.antt =====
-- The array of subscribers as a list: whoever subscribes comes last, and a dispatch calls them all
-- in the order in which they subscribed.
use ymirc.Prelude.{
  ℕ, zero, suc, ◌+◌, ◌≤◌, ◌<◌, ◌≡◌, refl, ◌∙◌, arith, true, false, ◌==◌, ltb, if◌then◌else◌, List,
  [], ◌∷◌, ◌++◌, length,
}
use ymirc.Prelude.{Outcome, done, stop, panicked, ◌>>=◌}
use ymirc.Dispatch.{
  Context, SubscriberCallback, Subscriber, Interrupts, max_subscriber, max_num_gates, notify,
  take_slot, itr_dispatch, subscribe2interrupt,
}

-- A subscriber: its context and its callback.
pub record Call (W : Type 0) : Type 0 where
  pub self : ℕ
  pub callback : SubscriberCallback W

-- The slots from `i` on hold the list, and no more.
abbrev pub Holds : {W : Type 0} → List (Call W) → (ℕ → Subscriber W) → ℕ → Type 0
Holds [] slots i = (j : ℕ) → i ≤ j → (slots j).in_use ≡ false
Holds (c ∷ rest) slots i =
    (slots i ≡ record { self = c.self; callback = c.callback; in_use = true })
    × Holds rest slots (i + 1)

unfoldable pub call_all : {W : Type 0} → List (Call W) → Context → W → Outcome W
call_all [] ctx w = done w
call_all (c ∷ rest) ctx w = do w' ← c.callback c.self ctx w; call_all rest ctx w'

bind-ext :
    {A B : Type 0} (x : Outcome A) {f g : A → Outcome B}
    → ((a : A) → f a ≡ g a)
    → (x >>= f) ≡ (x >>= g)
bind-ext (done a) same = same a
bind-ext (stop s) same = refl

module _ {W : Type 0} where
  notify-none :
      (slots : ℕ → Subscriber W) (ctx : Context) (left i : ℕ) (w : W)
      → Holds [] slots i
      → notify slots ctx left i w ≡ done w
  unfolding notify
  notify-none slots ctx zero i w h = refl
  notify-none slots ctx (suc left) i w h =
      rw (h i (omega arith))
        (notify-none slots ctx left (i + 1) w (λ j le. h j (omega (arith, le))))

  notify-Holds :
      (calls : List (Call W)) (slots : ℕ → Subscriber W) (ctx : Context) (left i : ℕ) (w : W)
      → length calls ≤ left
      → Holds calls slots i
      → notify slots ctx left i w ≡ call_all calls ctx w
  unfolding call_all notify
  notify-Holds [] slots ctx left i w fits h = notify-none slots ctx left i w h
  notify-Holds (c ∷ rest) slots ctx zero i w fits (e, h) = absurd (omega arith)
  notify-Holds (c ∷ rest) slots ctx (suc left) i w fits (e, h) =
      rw (notify, e)
        (bind-ext (c.callback c.self ctx w)
          (λ w'. notify-Holds rest slots ctx left (i + 1) w' (omega arith) h))

  -- If the array holds a list of at most 10 subscribers, `itr_dispatch` of a vector below 256 calls
  -- them all in the order of the list, each on the state that the one before left, and then the
  -- handler of the vector; where one of them stops, the rest is not called.
  pub itr_dispatch_lem :
      (calls : List (Call W)) (itr : Interrupts W) (ctx : Context) (w : W)
      → Holds calls itr.subscribers 0
      → length calls ≤ max_subscriber
      → ctx.vector < max_num_gates
      → itr_dispatch itr ctx w ≡ (call_all calls ctx w >>= itr.handlers ctx.vector ctx)
  unfolding itr_dispatch
  itr_dispatch_lem calls itr ctx w h fits gate =
      let e : ltb ctx.vector max_num_gates ≡ true = ground arith in
      rw (notify-Holds calls itr.subscribers ctx max_subscriber 0 w fits h, e) refl

  Holds-other :
      (calls : List (Call W)) (slots : ℕ → Subscriber W) (new : Subscriber W) (k i : ℕ)
      → k < i
      → Holds calls slots i
      → Holds calls (λ j. if j == k then new else slots j) i
  Holds-other [] slots new k i lt h =
      λ j le. let e : (j == k) ≡ false = ground arith in rw e (h j le)
  Holds-other (c ∷ rest) slots new k i lt (e, h) =
      let ne : (i == k) ≡ false = ground arith in
      (rw ne e, Holds-other rest slots new k (i + 1) (omega arith) h)

  take_slot-Holds :
      (calls : List (Call W)) (slots : ℕ → Subscriber W) (c : Call W) (left i : ℕ)
      → length calls < left
      → Holds calls slots i
      → (slots' : ℕ → Subscriber W) × (take_slot
            (record { self = c.self; callback = c.callback; in_use = true })
            left
            i
            slots
          ≡ done slots')
        × Holds (calls ++ (c ∷ [])) slots' i
        × ((j : ℕ) → j < i → slots' j ≡ slots j)
  unfolding take_slot
  take_slot-Holds [] slots c zero i fits h = absurd (omega arith)
  take_slot-Holds [] slots c (suc left) i fits h = (
    λ j. if j == i then record { self = c.self; callback = c.callback; in_use = true } else slots j,
    rw (h i (omega arith)) refl,
    (
      let e : (i == i) ≡ true = ground arith in rw e refl,
      λ j le. let e : (j == i) ≡ false = ground arith in rw e (h j (omega (arith, le))),
    ),
    λ j lt. let e : (j == i) ≡ false = ground arith in rw e refl,
  )
  take_slot-Holds (d ∷ rest) slots c zero i fits h = absurd (omega arith)
  take_slot-Holds (d ∷ rest) slots c (suc left) i fits (e, h) =
      let (slots', e', held, same) = take_slot-Holds rest slots c left (i + 1) (omega arith) h in
      (slots', rw e e', (same i (omega arith) ∙ e, held), λ j lt. same j (omega (arith, lt)))

  take_slot-full :
      (calls : List (Call W)) (slots : ℕ → Subscriber W) (new : Subscriber W) (i : ℕ)
      → Holds calls slots i
      → take_slot new (length calls) i slots ≡ stop panicked
  unfolding take_slot
  take_slot-full [] slots new i h = refl
  take_slot-full (c ∷ rest) slots new i (e, h) = rw e (take_slot-full rest slots new (i + 1) h)

  -- If the array holds a list of fewer than 10 subscribers, `subscribe2interrupt` returns, the
  -- array then holds the list with the new subscriber at its end, and the handlers are as before.
  pub subscribe2interrupt_lem :
      (calls : List (Call W)) (itr : Interrupts W) (c : Call W)
      → Holds calls itr.subscribers 0
      → length calls < max_subscriber
      → (itr' : Interrupts W) × (subscribe2interrupt c.self c.callback itr ≡ done itr')
        × Holds (calls ++ (c ∷ [])) itr'.subscribers 0
        × (itr'.handlers ≡ itr.handlers)
  unfolding subscribe2interrupt
  subscribe2interrupt_lem calls itr c h room =
      let (slots', e, held, _) = take_slot-Holds calls itr.subscribers c max_subscriber 0 room h in
      (record itr { subscribers = slots' }, rw e refl, held, refl)

  -- If the array holds a list of 10 subscribers, `subscribe2interrupt` panics.
  pub subscribe2interrupt-full :
      (calls : List (Call W)) (itr : Interrupts W) (self : ℕ) (callback : SubscriberCallback W)
      → Holds calls itr.subscribers 0
      → length calls ≡ max_subscriber
      → subscribe2interrupt self callback itr ≡ stop panicked
  unfolding subscribe2interrupt
  subscribe2interrupt-full calls itr self callback h full =
      let e =
        take_slot-full calls itr.subscribers
          (record { self = self; callback = callback; in_use = true }) 0 h in
      rw (← full, e) refl
