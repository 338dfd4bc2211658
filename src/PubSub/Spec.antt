-- ===== src/PubSub/Spec.antt =====
-- What a PubSub promises: mailboxes, one for each subscription, that hold what was posted to their topic
-- while they were open, as far as there was room, until it is taken.
use pgoutbox.Prelude.{
  ℕ, suc, String, Bool, true, false, ◌&&◌, ◌||◌, Option, none, some, List, [], ◌∷◌, ◌++◌, length,
  ltb, ◌==◌, text_test, if◌then◌else◌,
}
use pgoutbox.PubSub.{
  PubSubMessage, subscriber_buffer_size, put, Action, sub, unsubscribe, notified, receive,
  connection_fails, redials, shutdown,
}

pub record Mailbox : Type 0 where
  pub topic : String
  pub items : List PubSubMessage
  pub open_yet : Bool

abbrev pub Spec : Type 0
Spec = ℕ → Option Mailbox

abbrev pub add_bounded : PubSubMessage → List PubSubMessage → List PubSubMessage
add_bounded msg items =
    if ltb (length items) subscriber_buffer_size then items ++ msg ∷ [] else items

abbrev pub is_open_for : String → Option Mailbox → Bool
is_open_for topic none = false
is_open_for topic (some m) = m.open_yet && (m.topic == topic)

abbrev pub post : PubSubMessage → Option Mailbox → Option Mailbox
post msg none = none
post msg (some m) =
    if m.open_yet && (m.topic == msg.topic)
    then some (record m { items = add_bounded msg m.items })
    else some m

abbrev pub close_box : Option Mailbox → Option Mailbox
close_box none = none
close_box (some m) = some (record m { open_yet = false })

abbrev later_items : List PubSubMessage → List PubSubMessage
later_items [] = []
later_items (msg ∷ msgs) = msgs

abbrev pub take_box : Option Mailbox → Option Mailbox
take_box none = none
take_box (some m) = some (record m { items = later_items m.items })

-- The mailboxes, the number of the next one, whether the PubSub has ended, and whether it has ever
-- listened.
pub record Mailboxes : Type 0 where
  pub boxes : Spec
  pub next : ℕ
  pub ended : Bool
  pub started : Bool

abbrev pub no_mailboxes : Mailboxes
no_mailboxes = record { boxes = λ _. none; next = 0; ended = false; started = false }

abbrev pub open_box : String → Mailboxes → Mailboxes
open_box topic s = record s {
  boxes = put s.next (some (record { topic = topic; items = []; open_yet = true })) s.boxes;
  next = suc s.next;
  started = true;
}

-- What each action does to the mailboxes: the one thing, with no choice left.
unfoldable pub respond : Action → Mailboxes → Mailboxes
respond (sub topic connects) s =
    if topic == "" || s.ended then s else if s.started || connects then open_box topic s else s
respond (unsubscribe id) s = record s { boxes = put id (close_box (s.boxes id)) s.boxes }
respond (notified none) s = s
respond (notified (some msg)) s = record s { boxes = λ id. post msg (s.boxes id) }
respond (receive id) s = record s { boxes = put id (take_box (s.boxes id)) s.boxes }
respond connection_fails s = s
respond (redials works) s = s
respond shutdown s = record s { ended = true }
