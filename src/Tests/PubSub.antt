-- ===== src/Tests/PubSub.antt =====
-- A pgPubSub with two subscribers of one topic, run.
use pgoutbox.Prelude.{
  ℕ, ◌≤◌, String, ◌≡◌, ◌≢◌, refl, true, false, some, [], ◌∷◌, length, elem, number_test,
  if◌then◌else◌,
}
use pgoutbox.PubSub.{
  PgPubSub, PubSubMessage, sub, unsubscribe, notified, step, goes, panics, Outcome, dispatch, entry,
  new_pg_pub_sub,
}
use pgoutbox.PubSub.Deliver.{sent}
use pgoutbox.PubSub.Refines.{
  Reach, Agrees, history, start, take, pub_sub_refines, pub_sub_never_panics,
}
use pgoutbox.PubSub.Promises.{pub_sub_invariant, dispatch_delivers}

abbrev note : PubSubMessage
note = record { topic = "orders"; payload = [] }

abbrev state_of : Outcome → PgPubSub
state_of (goes p) = p
state_of _ = new_pg_pub_sub

abbrev one_sub : PgPubSub
one_sub = state_of (step (sub "orders" true) new_pg_pub_sub)

abbrev two_subs : PgPubSub
two_subs = state_of (step (sub "orders" true) one_sub)

abbrev noted : PgPubSub
noted = state_of (step (notified (some note)) two_subs)

reach_noted : Reach noted
unfolding step
reach_noted =
    take (notified (some note)) two_subs noted
      (take (sub "orders" true) one_sub two_subs
        (take (sub "orders" true) new_pg_pub_sub one_sub start refl) refl)
      refl

both_have_it : ((noted.channels 0).buffer ≡ note ∷ []) × ((noted.channels 1).buffer ≡ note ∷ [])
unfolding step
both_have_it = (refl, refl)

boxes_filled :
    (history reach_noted).boxes 1
    ≡ some (record { topic = "orders"; items = note ∷ []; open_yet = true })
unfolding history reach_noted
boxes_filled = refl

pub_sub_refines_example : Agrees noted (history reach_noted)
pub_sub_refines_example = pub_sub_refines noted reach_noted

pub_sub_never_panics_example : step (unsubscribe 1) noted ≢ panics
pub_sub_never_panics_example = pub_sub_never_panics noted (unsubscribe 1) reach_noted

pub_sub_invariant_example :
    ((id : ℕ) → length (noted.channels id).buffer ≤ 16)
    × ((topic : String) (id : ℕ)
        → elem id (entry (noted.subscribers topic)) ≡ true
        → ((noted.channels id).closed ≡ false) × (noted.waiting id ≡ some topic))
    × ((topic : String) → noted.subscribers topic ≢ some [])
pub_sub_invariant_example = pub_sub_invariant noted reach_noted

dispatch_delivers_example :
    (p' : PgPubSub) × (dispatch note noted ≡ goes p')
    × ((id : ℕ)
        → p'.channels id ≡ (
            if elem id (entry (noted.subscribers "orders"))
            then sent note (noted.channels id)
            else noted.channels id))
    × (p'.subscribers ≡ noted.subscribers)
dispatch_delivers_example = dispatch_delivers noted reach_noted note
