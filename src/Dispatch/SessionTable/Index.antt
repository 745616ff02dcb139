-- ===== src/Dispatch/SessionTable/Index.antt =====
-- Session ids are taken from a counter that stays a positive `int64`.
use packetd.Base.{ℕ, zero, suc, ◌+◌, ◌^◌, ◌≤◌, ◌<◌, ◌≡◌, arith}
use packetd.Dispatch.SessionTable.{next_index}

-- The index after a number of calls of `nextSessionID`.
unfoldable pub index_after : ℕ → ℕ → ℕ
unfolding next_index
index_after index zero = index
index_after index (suc n) = next_index (index_after index n)

index_after-add : (index n : ℕ) → index + n < 2 ^ 63 → index_after index n ≡ index + n
unfolding index_after
index_after-add index zero h = omega arith
index_after-add index (suc n) h = ground (arith, index_after-add index n)

-- As long as the counter does not reach 2^63, the ids of two different calls of nextSessionID
-- differ; and from any int64 that is not negative the next value is again one, and is at least 1.
pub next_index_fresh :
    (index m n : ℕ)
    → index + n < 2 ^ 63
    → m < n
    → (index_after index m < index_after index n)
      × (1 ≤ next_index (index_after index n))
      × (next_index (index_after index n) < 2 ^ 63)
unfolding next_index
next_index_fresh index m n h lt = ground (arith, index_after-add index m, index_after-add index n)
