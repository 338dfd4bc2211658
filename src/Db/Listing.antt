-- ===== src/Db/Listing.antt =====
-- GetTopicsWithMessages of sqlc/queries.sql.go: the loose index scan for the topics of the messages.
pub mod Least
pub mod Complete
use pgoutbox.Prelude.{
  ℕ, zero, suc, String, Bool, Option, none, some, List, [], ◌∷◌, map, length, if◌then◌else◌,
}
use pgoutbox.Sql.{select}
use pgoutbox.Db.{Db, Message}

-- `less` is the collation of the column.
module _ (less : String → String → Bool) where
  abbrev pub least_of : String → Option String → Option String
  least_of t none = some t
  least_of t (some u) = if less u t then some u else some t

  -- ORDER BY topic LIMIT 1
  unfoldable pub least : List String → Option String
  least [] = none
  least (t ∷ topics) = least_of t (least topics)

  -- The recursive arm, up to `n` rows: from each topic to the least above it, until there is none.
  unfoldable pub loose_scan : ℕ → Option String → List String → List String
  unfolding least
  loose_scan zero t topics = []
  loose_scan (suc n) none topics = []
  loose_scan (suc n) (some t) topics =
      t ∷ loose_scan n (least (select (λ u. less t u) topics)) topics

  -- GetTopicsWithMessages. There are no more topics than messages.
  unfoldable pub get_topics_with_messages : Db → List String
  unfolding loose_scan least
  get_topics_with_messages db =
      let topics = map (λ (m : Message). m.topic) db.messages in
      loose_scan (length topics) (least topics) topics
