-- ===== src/Services/Relay/Drained.antt =====
-- The waiting events along the loop of the relay: app/services/outbox_relay.py, `run`.
use async_payment_processing.Prelude.{
  ℕ, suc, ◌≤◌, ◌≡◌, false, List, [], ◌∷◌, ◌++◌, ok, arith, All, true, zero, ◌<◌, refl, ◌∙◌, ◌⊎◌,
  inl, inr, ◌&&◌, ◌==◌, tally-append, tally-le, Result, ap,
}
use async_payment_processing.Models.{OutboxEvent, Database}
use async_payment_processing.Schemas.{EventEnvelope}
use async_payment_processing.Services.Relay.{process_batch}
use async_payment_processing.Services.Relay.Loop.{Turn, run}
use async_payment_processing.Services.Relay.Marks.{
  IsEnvelope, waiting, waiting_as, confirmed_as, is_unpublished,
}
use async_payment_processing.Services.Relay.Turns.{IsCaught, turn-keeps, turn-caught, turn-serves}

zero-cases : (n : ℕ) → (n ≡ 0) ⊎ (1 ≤ n)
zero-cases n = omega arith

-- Nothing fails in this turn: the server is there, the broker confirms, and no row is locked.
pub record IsGood (t : Turn) : Type 0 where
  pub alive : t.tx.alive ≡ true
  pub confirms : (m : EventEnvelope) → t.broker m ≡ ok tt
  pub free : t.locked ≡ λ k. false

-- At least `n` of the turns are good ones. In the others anything may fail.
pub data HasGood : ℕ → List Turn → Type 0 where
  enough : {ts : List Turn} → HasGood 0 ts
  good : {n : ℕ} {t : Turn} {ts : List Turn} → IsGood t → HasGood n ts → HasGood (suc n) (t ∷ ts)
  skip : {n : ℕ} {t : Turn} {ts : List Turn} → HasGood n ts → HasGood n (t ∷ ts)

-- Others leave the outbox alone, and neither the turn nor the wait after it is cancelled.
abbrev pub IsQuiet : Turn → Type 0
IsQuiet t =
    ((db : Database) → (t.before db).outbox ≡ db.outbox) × IsCaught t.broker × (t.wait ≡ ok tt)

module _ (batch_size : ℕ) where
  -- What a turn leaves.
  abbrev after : Turn → Database → List EventEnvelope × Result ℕ × Database
  after t db = process_batch t.broker t.tx t.locked batch_size (t.before db)

  run-next :
      (t : Turn) (ts : List Turn) (db : Database)
      → IsQuiet t
      → run batch_size (t ∷ ts) db ≡ (
        (after t db).0 ++ (run batch_size ts (after t db).2).0,
        (run batch_size ts (after t db).2).1,
        (run batch_size ts (after t db).2).2,
      )
  unfolding run
  run-next t ts db (alone, b, waits) =
      rw (turn-caught t.broker t.tx t.locked batch_size (t.before db) b, waits, run)

  after-keeps :
      (t : Turn) (db : Database)
      → IsQuiet t
      → All IsEnvelope db.outbox
      → All IsEnvelope (after t db).2.outbox
        × (waiting (after t db).2.outbox ≤ waiting db.outbox)
        × ((k : ℕ)
            → confirmed_as k (after t db).0 ≡ 0
            → waiting_as k (after t db).2.outbox ≡ waiting_as k db.outbox)
  after-keeps t db (alone, b, waits) a =
      let (envelopes, less, told) =
        turn-keeps t.broker t.tx t.locked batch_size (t.before db) (rw (alone db) a) in
      (
        envelopes,
        omega (arith, less, ap waiting (alone db)),
        λ k z. told k z ∙ ap (waiting_as k) (alone db),
      )

  -- The loop goes on to its end; the events wait as before, or were confirmed.
  run-keeps :
      (ts : List Turn) (db : Database)
      → All IsQuiet ts
      → All IsEnvelope db.outbox
      → ((run batch_size ts db).1 ≡ ok tt)
        × (waiting (run batch_size ts db).2.outbox ≤ waiting db.outbox)
        × ((k : ℕ)
            → confirmed_as k (run batch_size ts db).0 ≡ 0
            → waiting_as k (run batch_size ts db).2.outbox ≡ waiting_as k db.outbox)
  unfolding run
  run-keeps [] db q a = (refl, omega arith, λ k z. refl)
  run-keeps (t ∷ ts) db (q, qs) a =
      let (a', le, told) = after-keeps t db q a in
      let (ends, le', told') = run-keeps ts (after t db).2 qs a' in
      rw (run-next t ts db q) (
        ends,
        omega (arith, le, le'),
        λ k z.
            let both =
              tally-append (λ (m : EventEnvelope). m.event_id == k) (after t db).0
                (run batch_size ts (after t db).2).0 in
            told' k (omega (arith, both, z)) ∙ told k (omega (arith, both, z)),
      )

  -- A good turn lets an event less wait, if one waits.
  after-serves :
      (t : Turn) (db : Database)
      → 1 ≤ batch_size
      → IsGood t
      → IsQuiet t
      → All IsEnvelope db.outbox
      → (waiting db.outbox ≡ 0) ⊎ (waiting (after t db).2.outbox < waiting db.outbox)
  after-serves t db le g (alone, b, waits) a =
      let serves =
        turn-serves t.broker t.tx batch_size (t.before db) le g.alive g.confirms
          (rw (alone db) a) in
      let same : waiting (t.before db).outbox ≡ waiting db.outbox = ap waiting (alone db) in
      rw g.free (omega (arith, serves, same))

  run-drains :
      (n : ℕ) (ts : List Turn) (db : Database)
      → 1 ≤ batch_size
      → HasGood n ts
      → All IsQuiet ts
      → All IsEnvelope db.outbox
      → waiting db.outbox ≤ n
      → waiting (run batch_size ts db).2.outbox ≡ 0
  run-drains zero ts db le enough q a h = omega (arith, (run-keeps ts db q a).1, h)
  run-drains (suc n) (t ∷ ts) db le (good g more) (q, qs) a h =
      let (a', less, told) = after-keeps t db q a in
      rw (run-next t ts db q) (
        run-drains n ts (after t db).2 le more qs a'
          (omega (arith, after-serves t db le g q a, less, h)))
  run-drains n (t ∷ ts) db le (skip more) (q, qs) a h =
      let (a', less, told) = after-keeps t db q a in
      rw (run-next t ts db q)
        (run-drains n ts (after t db).2 le more qs a' (omega (arith, less, h)))

-- Events that wait are confirmed in the end, and then none waits: if a batch holds at least one event,
-- the payload of each event is its own envelope, and at least as many turns as events wait meet a
-- server, a broker and rows that serve them. Before and between these turns anything may fail, apart
-- from a cancellation, if others leave the outbox alone. The loop then ends with no exception when it is
-- stopped, and for each event that waited the broker has confirmed a message with its id.
pub run-delivers :
    (batch_size : ℕ) (ts : List Turn) (db : Database)
    → 1 ≤ batch_size
    → All IsEnvelope db.outbox
    → All IsQuiet ts
    → HasGood (waiting db.outbox) ts
    → let (confirmed, result, db') = run batch_size ts db in
      (result ≡ ok tt)
      × (waiting db'.outbox ≡ 0)
      × ((k : ℕ) → 1 ≤ waiting_as k db.outbox → 1 ≤ confirmed_as k confirmed)
run-delivers batch_size ts db le a q g =
    let (ends, less, told) = run-keeps batch_size ts db q a in
    let none_left = run-drains batch_size (waiting db.outbox) ts db le g q a (omega arith) in
    (
      ends,
      none_left,
      λ k w.
          let final = (run batch_size ts db).2.outbox in
          let fewer =
            tally-le (λ (e : OutboxEvent). (e.id == k) && is_unpublished e) is_unpublished
              (λ e t. ground arith) final in
          elim (zero-cases (confirmed_as k (run batch_size ts db).0)) [
            | inl z ↦ absurd (omega (arith, told k z, fewer, none_left, w))
            | inr p ↦ p
          ],
    )
