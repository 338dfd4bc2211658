-- ===== src/Outbox/Add/Refused.antt =====
-- What AddMessages refuses.
use mathlib.Core.List.{mem-cons}
use mathlib.Core.Logic.Or
use pgoutbox.Prelude.{
  ℕ, suc, ◌+◌, String, ◌≡◌, ◌≢◌, refl, ap, false, Option, inl, inr, List, [], ◌∷◌, ◌++◌, arith,
  length, Mem, Bool-cases, empty_of_length, ◌==◌, ==-false, number_test, text_test,
}
use pgoutbox.World.{World, err, raise, empty_topic, empty_payload}
use pgoutbox.Outbox.{Outbox}
use pgoutbox.Outbox.Add.{MessageOpts, Notifier, build_params, add_messages, insert_and_announce}

abbrev HasPayload : MessageOpts → Type 0
HasPayload m = m.payload ≢ []

some_length : (xs : List ℕ) → xs ≢ [] → (length xs == 0) ≡ false
some_length xs h = elim (Bool-cases (length xs == 0)) [
  | inl e ↦ absurd (h (empty_of_length xs e))
  | inr e ↦ e
]

length-middle :
    (before : List MessageOpts) (m : MessageOpts) (later : List MessageOpts)
    → (length (before ++ m ∷ later) == 0) ≡ false
length-middle [] m later = ground arith
length-middle (x ∷ xs) m later = ground arith

build_params-empty :
    (topic : String) (i : ℕ) (before : List MessageOpts) (m : MessageOpts)
    (later : List MessageOpts)
    → ((x : MessageOpts) → Mem x before → HasPayload x)
    → m.payload ≡ []
    → build_params topic i (before ++ m ∷ later) ≡ err (empty_payload (i + length before))
unfolding build_params
build_params-empty topic i [] m later full none_given =
    rw none_given (ap (λ k. err (empty_payload k)) (omega arith))
build_params-empty topic i (x ∷ xs) m later full none_given =
    rw (some_length x.payload (full x (mem-cons.1 (Or.inl refl)))) (
      rw
        (build_params-empty topic (suc i) xs m later (λ y k. full y (mem-cons.1 (Or.inr k)))
          none_given)
        (ap (λ k. err (empty_payload k)) (omega arith)))

module _ (o : Outbox) (topic : String) (n : Option Notifier) (w : World) where
  -- AddMessages refuses an empty topic, and a batch with an empty payload by the index of the first
  -- one; either way nothing has been sent to the database.
  pub add_messages_refused :
      (before : List MessageOpts) (m : MessageOpts) (later : List MessageOpts)
      → (add_messages o "" later n w ≡ (err empty_topic, w))
        × (topic ≢ ""
            → ((x : MessageOpts) → Mem x before → HasPayload x)
            → m.payload ≡ []
            → add_messages o topic (before ++ m ∷ later) n w
              ≡ (err (empty_payload (length before)), w))
  unfolding add_messages insert_and_announce raise
  add_messages_refused before m later = (
    refl,
    λ named full none_given. rw (==-false topic "" named) (
        rw (length-middle before m later) (
          rw (build_params-empty topic 0 before m later full none_given)
            (ap (λ k. (err (empty_payload k), w)) (omega arith)))),
  )
