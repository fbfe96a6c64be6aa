-- ===== src/Server/Stream.antt =====
-- handlers.go: `handleStream` beside the polls: a client is registered before it reads its first
-- snapshot. A snapshot stands for its number here, and there is one client.
use mathlib.Core.Option.{some-injective}
use star_car.Prelude.{
  ℕ, suc, ◌≤◌, ◌≡◌, refl, sym, ◌∙◌, Option, none, some, ◌⊎◌, inl, inr, arith, if◌then◌else◌, ltb,
}

-- How far `handleStream` has come.
pub data Phase : Type 0 where
  connecting registered_only streaming : Phase

pub record Stream : Type 0 where
  -- the number of the current snapshot
  pub current : ℕ
  -- a change that a poll has made and not broadcast yet
  pub announced : Option ℕ
  pub phase : Phase
  -- the frame in the client's channel
  pub buffer : Option ℕ
  -- the highest number that was written to the client
  pub written : ℕ

abbrev later : ℕ → ℕ → ℕ
later a b = if ltb a b then b else a

-- A broadcast puts its frame into the channel of a client that is registered.
unfoldable pub buffer_after : Phase → ℕ → Option ℕ → Option ℕ
buffer_after connecting n old = old
buffer_after registered_only n old = some n
buffer_after streaming n old = some n

pub data StreamStep : Stream → Stream → Type 0 where
  -- `PollOnce` makes a changed snapshot current.
  published :
      (n : ℕ) (phase : Phase) (buffer : Option ℕ) (written : ℕ)
      → StreamStep
          (record {
            current = n;
            announced = none;
            phase = phase;
            buffer = buffer;
            written = written;
          })
          (record {
            current = suc n;
            announced = some (suc n);
            phase = phase;
            buffer = buffer;
            written = written;
          })
  -- `broadcast` of the snapshot that the poll has returned.
  broadcasted :
      (n m : ℕ) (phase : Phase) (buffer : Option ℕ) (written : ℕ)
      → StreamStep
          (record {
            current = n;
            announced = some m;
            phase = phase;
            buffer = buffer;
            written = written;
          })
          (record {
            current = n;
            announced = none;
            phase = phase;
            buffer = buffer_after phase m buffer;
            written = written;
          })
  -- `register`
  registered_first :
      (s : Stream) → s.phase ≡ connecting → StreamStep s (record s { phase = registered_only })
  -- `CurrentSnapshot`, and the first frame.
  first_sent :
      (s : Stream)
      → s.phase ≡ registered_only
      → StreamStep s (record s { phase = streaming; written = later s.written s.current })
  -- A frame from the channel.
  frame_sent :
      (s : Stream) (n : ℕ)
      → s.phase ≡ streaming
      → s.buffer ≡ some n
      → StreamStep s (record s { buffer = none; written = later s.written n })

pub data StreamRuns : Stream → Type 0 where
  opened :
      (n : ℕ)
      → StreamRuns
          (record { current = n; announced = none; phase = connecting; buffer = none; written = 0 })
  then_sent : {s t : Stream} → StreamRuns s → StreamStep s t → StreamRuns t

-- The current snapshot is announced, or in the channel, or written.
abbrev IsOnItsWay : Stream → Type 0
IsOnItsWay s =
    s.phase ≡ streaming
    → (s.announced ≡ some s.current) ⊎ (s.buffer ≡ some s.current) ⊎ (s.current ≤ s.written)

abbrev IsCurrentChange : Stream → Type 0
IsCurrentChange s = (s.announced ≡ none) ⊎ (s.announced ≡ some s.current)

step-IsCurrentChange : {s t : Stream} → StreamStep s t → IsCurrentChange s → IsCurrentChange t
step-IsCurrentChange (published n ph b w) h = inr refl
step-IsCurrentChange (broadcasted n m ph b w) h = inl refl
step-IsCurrentChange (registered_first s e) h = h
step-IsCurrentChange (first_sent s e) h = h
step-IsCurrentChange (frame_sent s n e f) h = h

step-IsOnItsWay : {s t : Stream} → StreamStep s t → IsCurrentChange s → IsOnItsWay s → IsOnItsWay t
unfolding buffer_after
step-IsOnItsWay (published n ph b w) c h p = inl refl
step-IsOnItsWay (broadcasted n m connecting b w) c h p = cc p
step-IsOnItsWay (broadcasted n m registered_only b w) c h p = cc p
step-IsOnItsWay (broadcasted n m streaming b w) c h p = elim c [
  | inl e ↦ cc e
  | inr e ↦ inr (inl e)
]
step-IsOnItsWay (registered_first s e) c h p = cc p
step-IsOnItsWay (first_sent s e) c h p = inr (ground arith)
step-IsOnItsWay (frame_sent s n e f) c h p = elim (h e) [
  | inl x ↦ inl x
  | inr (inl x) ↦
      let same : n ≡ s.current = some-injective n s.current (sym f ∙ x) in
      inr (inr (ground (arith, same)))
  | inr (inr x) ↦ inr (inr (ground (arith, x)))
]

stream_runs : {s : Stream} → StreamRuns s → IsCurrentChange s × IsOnItsWay s
stream_runs (opened n) = (inl refl, λ p. cc p)
stream_runs (then_sent h st) =
    let (c, w) = stream_runs h in (step-IsCurrentChange st c, step-IsOnItsWay st c w)

-- After any interleaving of polls, of which each broadcasts its change before the next makes one,
-- with the registration, the first frame and the further frames of a client, a client that
-- streams, with no broadcast outstanding and no frame in its channel, has been sent the current
-- snapshot: none is missed between its first read and its registration.
pub StreamRuns-written :
    {s : Stream}
    → StreamRuns s
    → s.phase ≡ streaming
    → s.announced ≡ none
    → s.buffer ≡ none
    → s.current ≤ s.written
StreamRuns-written {s = s} h p a b = elim ((stream_runs h).1 p) [
  | inl x ↦ cc (a, x)
  | inr (inl x) ↦ cc (b, x)
  | inr (inr x) ↦ x
]
