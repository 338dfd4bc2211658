-- ===== src/PubSub/Refines.antt =====
-- A pgPubSub behaves like mailboxes, and never panics.
use pgoutbox.Prelude.{
  ℕ, suc, String, sym, ap, ◌∙◌, [], ◌≡◌, ◌≢◌, refl, subst, Bool, true, false, ◌||◌, Option, none,
  some, elem, number_test, text_test, ◌==◌, arith, if◌then◌else◌,
}
use mathlib.Core.List.{Nodup-nil}
use pgoutbox.PubSub.{
  PgPubSub, PubSubMessage, Listener, Action, sub, unsubscribe, notified, receive, connection_fails,
  redials, shutdown, step, Outcome, after_redial, disabled, panics, not_started, serving, redialing,
  over, add_subscriber, put, goes, new_pg_pub_sub, subscribe_channel, ensure_listening, is_serving,
  is_redialing, serve,
}
use pgoutbox.PubSub.Spec.{Spec, Mailboxes, no_mailboxes, open_box, respond}
use pgoutbox.PubSub.Represents.{Represents, Simulated, listener-Represents}
use pgoutbox.PubSub.Represents.Opens.{add_subscriber-Represents}
use pgoutbox.PubSub.Represents.Closes.{unsubscribe-Simulated, take-Simulated}
use pgoutbox.PubSub.Represents.Posts.{dispatch-Simulated}

abbrev has_started : Listener → Bool
has_started not_started = false
has_started _ = true

serving_started : (l : Listener) → is_serving l ≡ true → has_started l ≡ true
serving_started not_started e = cc
serving_started serving e = refl
serving_started redialing e = refl
serving_started over e = refl

redialing_started : (l : Listener) → is_redialing l ≡ true → has_started l ≡ true
redialing_started not_started e = cc
redialing_started serving e = refl
redialing_started redialing e = refl
redialing_started over e = refl

failed_started : (ended : Bool) → has_started (if ended then over else redialing) ≡ true
failed_started true = refl
failed_started false = refl

redialed_started : (works ended : Bool) → has_started (after_redial works ended) ≡ true
redialed_started true ended = refl
redialed_started false ended = failed_started ended

-- The state represents the mailboxes, and they know what it knows of its life.
pub record Agrees (p : PgPubSub) (s : Mailboxes) : Type 0 where
  pub represents : Represents p s.boxes
  pub next : p.next ≡ s.next
  pub ended : p.ended ≡ s.ended
  pub started : has_started p.listener ≡ s.started

abbrev Follows : Mailboxes → Outcome → Type 0
Follows s disabled = Unit
Follows s panics = ⊥
Follows s (goes p) = Agrees p s

module _ (p : PgPubSub) (s : Mailboxes) (r : Agrees p s) where
  -- The same life with other mailboxes.
  follows :
      (boxes : Spec) (x : Outcome) → Simulated p boxes x → Follows (record s { boxes = boxes }) x
  follows boxes disabled h = tt
  follows boxes panics h = h
  follows boxes (goes q) (h, next, ended, listener) = record {
    represents = h;
    next = next ∙ r.next;
    ended = ended ∙ r.ended;
    started = ap has_started listener ∙ r.started;
  }

  -- A listener that goes on, or ends.
  listens :
      (l : Listener) → has_started l ≡ has_started p.listener → Agrees (record p { listener = l }) s
  listens l same = record {
    represents = listener-Represents p.ended l r.represents;
    next = r.next;
    ended = r.ended;
    started = same ∙ r.started;
  }

  subscribed-Agrees :
      (topic : String) (l : Listener)
      → has_started l ≡ true
      → Agrees (add_subscriber topic (record p { listener = l })) (open_box topic s)
  unfolding add_subscriber
  subscribed-Agrees topic l live = record {
    represents =
        subst
          (λ n.
            Represents (add_subscriber topic (record p { listener = l }))
              (put n (some (record { topic = topic; items = []; open_yet = true })) s.boxes))
          r.next
          (add_subscriber-Represents topic (record p { listener = l }) s.boxes
            (listener-Represents p.ended l r.represents));
    next = ap suc r.next;
    ended = r.ended;
    started = live;
  }

  started_by : (l : Listener) → p.listener ≡ l → has_started l ≡ true → s.started ≡ true
  started_by l e live = sym r.started ∙ ap has_started e ∙ live

  unopened :
      (b : Bool) (t : Mailboxes) {q : PgPubSub}
      → b ≡ false
      → Agrees q s
      → Agrees q (if b || false then t else s)
  unopened false t e h = h
  unopened true t e h = cc

  sub-Agrees :
      (topic : String) (connects : Bool) (l : Listener)
      → p.listener ≡ l
      → Agrees
          (subscribe_channel (ensure_listening l connects) topic p)
          (if s.started || connects then open_box topic s else s)
  sub-Agrees topic true not_started e =
      let live : s.started ≡ false = sym r.started ∙ ap has_started e in
      rw live (subscribed-Agrees topic serving refl)
  sub-Agrees topic false not_started e =
      let live : s.started ≡ false = sym r.started ∙ ap has_started e in
      unopened s.started _ live (listens not_started (ap has_started (sym e)))
  sub-Agrees topic connects serving e =
      rw (started_by serving e refl) (subscribed-Agrees topic serving refl)
  sub-Agrees topic connects redialing e =
      rw (started_by redialing e refl) (subscribed-Agrees topic redialing refl)
  sub-Agrees topic connects over e = rw (started_by over e refl) (subscribed-Agrees topic over refl)

  serve-Follows :
      (payload : Option PubSubMessage) → Follows (respond (notified payload) s) (serve payload p)
  unfolding respond
  serve-Follows none = r
  serve-Follows (some msg) = follows _ _ (dispatch-Simulated msg p s.boxes r.represents)

  if-Follows :
      (b : Bool) (x y : Outcome) (t : Mailboxes)
      → (b ≡ true → Follows t x)
      → (b ≡ false → Follows t y)
      → Follows t (if b then x else y)
  if-Follows true x y t h k = h refl
  if-Follows false x y t h k = k refl

  both-Follows :
      (b c : Bool) (x y : Outcome) (t u : Mailboxes)
      → b ≡ c
      → Follows t x
      → Follows u y
      → Follows (if c then t else u) (if b then x else y)
  both-Follows true true x y t u e h k = h
  both-Follows false false x y t u e h k = k
  both-Follows true false x y t u e h k = cc
  both-Follows false true x y t u e h k = cc

  unsubscribed-Follows :
      (id : ℕ) (t : Option String)
      → p.waiting id ≡ t
      → Follows (respond (unsubscribe id) s) (step (unsubscribe id) p)
  unfolding step respond
  unsubscribed-Follows id none e = rw (e, step) tt
  unsubscribed-Follows id (some topic) e =
      rw (e, step) (follows _ _ (unsubscribe-Simulated id topic p s.boxes r.represents e))

  -- Each step of the implementation is the answer of the mailboxes to the same action.
  pub step-Follows : (a : Action) → Follows (respond a s) (step a p)
  unfolding step respond
  step-Follows (sub topic connects) =
      both-Follows (topic == "" || p.ended) (topic == "" || s.ended) _ _ _ _
        (ap (λ b. topic == "" || b) r.ended) r (sub-Agrees topic connects p.listener refl)
  step-Follows (unsubscribe id) = unsubscribed-Follows id (p.waiting id) refl
  step-Follows (notified payload) =
      if-Follows (is_serving p.listener) _ _ _ (λ _. serve-Follows payload) (λ _. tt)
  step-Follows (receive id) = follows _ _ (take-Simulated id p s.boxes r.represents)
  step-Follows connection_fails =
      if-Follows (is_serving p.listener) _ _ s
        (λ on. listens _ (failed_started p.ended ∙ sym (serving_started p.listener on))) (λ _. tt)
  step-Follows (redials works) =
      if-Follows (is_redialing p.listener) _ _ s
        (λ on. listens _ (redialed_started works p.ended ∙ sym (redialing_started p.listener on)))
        (λ _. tt)
  step-Follows shutdown = record {
    represents = listener-Represents true p.listener r.represents;
    next = r.next;
    ended = refl;
    started = r.started;
  }

-- The states that a pgPubSub can reach.
pub data Reach : PgPubSub → Type 0 where
  start : Reach new_pg_pub_sub
  take : (a : Action) (p p' : PgPubSub) → Reach p → step a p ≡ goes p' → Reach p'

-- What the actions of a run make of the mailboxes, from none.
unfoldable pub history : {p : PgPubSub} → Reach p → Mailboxes
unfolding respond
history start = no_mailboxes
history (take a p p' before e) = respond a (history before)

new-Represents : Represents new_pg_pub_sub (λ _. none)
unfolding elem
new-Represents = record {
  fresh = λ id h. refl;
  holds = λ id. refl;
  registered = λ topic id. refl;
  waits = λ id. refl;
  distinct = λ topic. Nodup-nil;
  nonempty = λ topic e. cc;
  bounded = λ id. omega arith;
}

-- Whatever subscribers, consumers, notifications, connection failures and the shut-down do, in any order,
-- the state of a pgPubSub represents the mailboxes that the same actions lead to: for each subscription
-- that was accepted one, with just the messages that were posted to its topic while it was open and
-- there was room, less those received, and closed when it has ended.
pub pub_sub_refines : (p : PgPubSub) (reach : Reach p) → Agrees p (history reach)
unfolding history
pub_sub_refines p start = record {
  represents = new-Represents;
  next = refl;
  ended = refl;
  started = refl;
}
pub_sub_refines p' (take a p _ before e) =
    subst (Follows (respond a (history before))) e
      (step-Follows p (history before) (pub_sub_refines p before) a)

-- No step of a reachable state panics: nothing is sent on a closed channel, and none is closed twice.
pub pub_sub_never_panics : (p : PgPubSub) (a : Action) → Reach p → step a p ≢ panics
pub_sub_never_panics p a reach e =
    subst (Follows (respond a (history reach))) e
      (step-Follows p (history reach) (pub_sub_refines p reach) a)
