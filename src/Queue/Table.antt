-- ===== src/Queue/Table.antt =====
-- SQL statements over a table of rows, as functions.
use research_orchestrator.Prelude.{
  ℕ, ◌+◌, Bool, ◌&&◌, ◌||◌, Option, none, some, List, [], ◌∷◌, ltb, leb, ◌==◌, if◌then◌else◌,
}
use research_orchestrator.Queue.Schema.{Row}

-- UPDATE … SET f WHERE p, with the number of rows that it affects
unfoldable pub update_where : (Row → Bool) → (Row → Row) → List Row → List Row × ℕ
update_where p f [] = ([], 0)
update_where p f (r ∷ rs) =
    let (rest, n) = update_where p f rs in if p r then (f r ∷ rest, n + 1) else (r ∷ rest, n)

-- ORDER BY priority ASC, created_time ASC
unfoldable pub comes_first : Row → Row → Bool
comes_first a b =
    ltb a.priority b.priority || (a.priority == b.priority && leb a.created_time b.created_time)

unfoldable pub first_of_two : Row → Option Row → Row
unfolding comes_first
first_of_two r none = r
first_of_two r (some b) = if comes_first r b then r else b

-- SELECT … WHERE p ORDER BY … LIMIT 1. Of rows that tie, the first in the table.
unfoldable pub first_by : (Row → Bool) → List Row → Option Row
unfolding first_of_two
first_by p [] = none
first_by p (r ∷ rs) = let best = first_by p rs in if p r then some (first_of_two r best) else best

-- SELECT … WHERE queue_id = j: the view of the table that the laws speak of
unfoldable pub find : ℕ → List Row → Option Row
find j [] = none
find j (r ∷ rs) = if r.queue_id == j then some r else find j rs
