-- ===== src/Server/Process/Turns.antt =====
-- About one client's turn in `broadcast` (sse.go).
use star_car.Prelude.{
  ℕ, ◌<◌, ◌≡◌, refl, sym, ◌∙◌, Bool, true, false, String, Option, none, some, List, Result, ok, inl,
  inr, Bool-cases, arith,
}
use star_car.Server.Clients.{try_send, send_into, try_receive}
use star_car.Server.Connections.{
  StreamEvent, Stage, connecting, registered, waiting, leaving, unlisted, gone, greeting,
  delivering, Turn, idle, sending, draining, replacing, Connection, is_idle, is_active, after_send,
  broadcast_at,
}
use star_car.Server.Process.Known.{Fits, IsLast}

-- How many operations a client's turn may still take.
abbrev pub weight : Turn → ℕ
weight idle = 0
weight replacing = 1
weight draining = 2
weight sending = 3

IsLast-some :
    (text t : String) (st : Stage) (w : List StreamEvent) → text ≡ t → IsLast t st (some text) w
IsLast-some text t registered w e = e
IsLast-some text t waiting w e = e
IsLast-some text t (greeting x) w e = e
IsLast-some text t (delivering x) w e = e
IsLast-some text t connecting w e = tt
IsLast-some text t leaving w e = tt
IsLast-some text t unlisted w e = tt
IsLast-some text t gone w e = tt

-- A client that has no frame to wait for any more: it is served, or was never listed.
pub IsLast-unlisted :
    (t : String) (st : Stage) (b : Option String) (w : List StreamEvent)
    → is_active st ≡ false
    → IsLast t st b w
IsLast-unlisted t registered b w e = absurd (cc)
IsLast-unlisted t waiting b w e = absurd (cc)
IsLast-unlisted t (greeting x) b w e = absurd (cc)
IsLast-unlisted t (delivering x) b w e = absurd (cc)
IsLast-unlisted t connecting b w e = tt
IsLast-unlisted t leaving b w e = tt
IsLast-unlisted t unlisted b w e = tt
IsLast-unlisted t gone b w e = tt

pub inactive :
    {current : Result String} {announced busy : Bool} (c : Connection)
    → Fits current announced busy c
    → c.channel.listed ≡ false
    → is_active c.stage ≡ false
inactive c h l = elim (Bool-cases (is_active c.stage)) [
  | inl e ↦ absurd (cc (sym l ∙ h.listed e))
  | inr e ↦ e
]

-- What one operation of a broadcast does at a client whose turn it is.
abbrev pub Served : Result String → String → Connection → Type 0
Served current text c =
    (d : Connection) × (broadcast_at text c.turn c ≡ some d)
    × Fits current false true d
    × (weight d.turn < weight c.turn)

module _ {current : Result String} (text : String) (c : Connection) (m : current ≡ ok text)
    (h : Fits current false true c) (l : c.channel.listed ≡ true) where
  -- The frame is in the channel, and the turn is over.
  sent-Fits :
      Fits current false true
        (record c { channel = record (c.channel) { buffer = some text }; turn = idle })
  sent-Fits = record {
    listed = h.listed;
    taken_out = h.taken_out;
    open_channel = h.open_channel;
    due = λ x. l;
    quiet = λ x. refl;
    drained = λ x. cc x;
    newest = λ t n a i f. IsLast-some text t c.stage c.written (cc (m, n));
  }

  -- The turn goes on.
  turn-Fits :
      (t : Turn) (b : Option String)
      → is_idle t ≡ false
      → (t ≡ replacing → b ≡ none)
      → Fits current false true (record c { channel = record (c.channel) { buffer = b }; turn = t })
  turn-Fits t b e k = record {
    listed = h.listed;
    taken_out = h.taken_out;
    open_channel = h.open_channel;
    due = λ x. l;
    quiet = λ x. cc x;
    drained = k;
    newest = λ u n a i f. absurd (cc (e, i));
  }

  send-free :
      (next : Turn)
      → c.channel.buffer ≡ none
      → after_send next c (try_send text c.channel)
        ≡ some (record c { channel = record (c.channel) { buffer = some text }; turn = idle })
  unfolding after_send try_send send_into
  send-free next b = let o : c.channel.closed ≡ false = h.open_channel l in ground (arith, o)

  send-full :
      (next : Turn) (old : String)
      → c.channel.buffer ≡ some old
      → after_send next c (try_send text c.channel) ≡ some (record c { turn = next })
  unfolding after_send try_send send_into
  send-full next old b = let o : c.channel.closed ≡ false = h.open_channel l in ground (arith, o)

  -- One operation, whichever comes next. It does not panic.
  served_at :
      (t : Turn) (b : Option String)
      → c.turn ≡ t
      → is_idle t ≡ false
      → c.channel.buffer ≡ b
      → (d : Connection) × (broadcast_at text t c ≡ some d)
        × Fits current false true d
        × (weight d.turn < weight t)
  unfolding broadcast_at try_receive
  served_at idle b e i k = absurd (cc i)
  served_at sending none e i k = (_, send-free draining k, sent-Fits, omega arith)
  served_at sending (some old) e i k = (
    _,
    send-full draining old k,
    turn-Fits draining c.channel.buffer refl (λ x. absurd (cc x)),
    omega arith,
  )
  served_at draining b e i k = (_, refl, turn-Fits replacing none refl (λ x. refl), omega arith)
  served_at replacing none e i k = (_, send-free idle k, sent-Fits, omega arith)
  served_at replacing (some old) e i k = absurd (cc (k, h.drained e))

  pub served : is_idle c.turn ≡ false → Served current text c
  served i = served_at c.turn c.channel.buffer refl i refl
