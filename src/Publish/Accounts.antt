-- ===== src/Publish/Accounts.antt =====
-- The count of published messages is honest on every path, that of a pass that fails included: it is
-- the number of messages that the broker has acknowledged in the pass.
use outboxexpress.Common.{◌+◌, ◌≡◌, length}
use outboxexpress.Domain.Std.{Std}
use outboxexpress.Publish.{Pass}
use outboxexpress.Publish.Shows.{Shows}

-- From `w` to `w'` as many messages were acknowledged as were counted.
abbrev Counted : Pass → Pass → Type 0
Counted w w' = length w'.acked + w.result.published ≡ length w.acked + w'.result.published
