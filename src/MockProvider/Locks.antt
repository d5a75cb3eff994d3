-- ===== src/MockProvider/Locks.antt =====
-- mock-provider/app/main.py: `_idempotency_locks`, with each `IdempotencyLockEntry` as an object of its
-- own, that a number names.
use async_payment_processing.Prelude.{
  ℕ, ◌+◌, ◌-◌, ◌<◌, ◌≡◌, inl, inr, ◌&&◌, Option, none, some, if◌then◌else◌, ◌==◌, Option-cases,
  equals_some, arith, Bool-cases,
}
use async_payment_processing.Prelude.Maps.{update}

pub record Locks : Type 0 where
  pub table : ℕ → Option ℕ
  pub users : ℕ → ℕ
  pub next : ℕ

-- The entry of a key, which is made if there is none, with one more user.
abbrev pub enter_entry : ℕ → Option ℕ → Locks → ℕ × Locks
enter_entry key none l = (
  l.next,
  record {
    table = update l.table key (some l.next);
    users = update l.users l.next 1;
    next = l.next + 1;
  },
)
enter_entry key (some e) l = (e, record l { users = update l.users e (l.users e + 1) })

unfoldable pub enter : ℕ → Locks → ℕ × Locks
enter key l = enter_entry key (l.table key) l

-- The `finally` clause: an entry without users leaves the table, if it is the one that stands there.
unfoldable pub leave : ℕ → ℕ → Locks → Locks
leave key e l =
    let left = l.users e - 1 in
    if (left == 0) && equals_some (l.table key) e
    then record l { table = update l.table key none; users = update l.users e left }
    else record l { users = update l.users e left }

-- The table against the number of tasks that wait at each key.
pub record IsCounted (l : Locks) (waiting : ℕ → ℕ) : Type 0 where
  pub held :
      (k e : ℕ) → l.table k ≡ some e → (e < l.next) × (l.users e ≡ waiting k) × (0 < waiting k)
  pub free : (k : ℕ) → l.table k ≡ none → waiting k ≡ 0
  pub own : (j k e : ℕ) → l.table j ≡ some e → l.table k ≡ some e → j ≡ k

module _ (l : Locks) (key : ℕ) where
  -- The entry that a task has got stands in the table, and all others stay.
  pub enter-stands : (enter key l).1.table key ≡ some (enter key l).0
  unfolding enter
  enter-stands = ground arith

  pub enter-keeps : (k e : ℕ) → l.table k ≡ some e → (enter key l).1.table k ≡ some e
  unfolding enter
  enter-keeps k e q = ground arith

pub IsCounted-ext :
    (l : Locks) (n m : ℕ → ℕ) → ((k : ℕ) → m k ≡ n k) → IsCounted l n → IsCounted l m
IsCounted-ext l n m same h = record {
  held = λ k e q. ground (arith, h.held k e q, same k);
  free = λ k q. ground (arith, h.free k q, same k);
  own = h.own;
}

module _ (l : Locks) (n m : ℕ → ℕ) (key : ℕ) (h : IsCounted l n) where
  pub enter-IsCounted :
      ((k : ℕ) → m k ≡ (if k == key then n k + 1 else n k)) → IsCounted (enter key l).1 m
  unfolding enter
  enter-IsCounted more = elim (Option-cases (l.table key)) [
    | inl e ↦ rw e (record {
      held = λ k x q. ground (arith, more k, h.held k x, h.free key e);
      free = λ k q. ground (arith, more k, h.free k);
      own = λ j k x p q. ground (arith, h.own j k x, h.held j x, h.held k x);
    })
    | inr (y, e) ↦ rw e (record {
      held = λ k x q. ground (arith, more k, h.held k x, h.held key y e, h.own k key y);
      free = λ k q. ground (arith, more k, h.free k);
      own = h.own;
    })
  ]

  module _ (e : ℕ) (stands : l.table key ≡ some e) where
    pub leave-IsCounted :
        ((k : ℕ) → m k ≡ (if k == key then n k - 1 else n k)) → IsCounted (leave key e l) m
    unfolding leave
    leave-IsCounted less = elim (Bool-cases (l.users e - 1 == 0)) [
      | inl last ↦
          rw (last, stands)
            (record {
              held =
                  λ k x q. ground (arith, less k, h.held k x, h.held key e stands, h.own k key e);
              free = λ k q. ground (arith, less k, h.free k, h.held key e stands);
              own = λ j k x p q. ground (arith, h.own j k x);
            })
      | inr more ↦ rw more (record {
        held = λ k x q. ground (arith, less k, h.held k x, h.held key e stands, h.own k key e);
        free = λ k q. ground (arith, less k, h.free k);
        own = h.own;
      })
    ]

    -- An entry at which some task still waits stays.
    pub leave-keeps :
        ((k : ℕ) → m k ≡ (if k == key then n k - 1 else n k))
        → (k x : ℕ) → 0 < m k
        → l.table k ≡ some x
        → (leave key e l).table k ≡ some x
    unfolding leave
    leave-keeps less k x some_left q =
        ground (arith, less k, h.held k x q, h.held key e stands, h.own k key e)
