-- ===== src/Server/Process/Handling.antt =====
-- About one client of the running server (handlers.go, sse.go): what each operation of its handler
-- keeps true of it.
use star_car.Prelude.{
  ◌≡◌, refl, sym, ap, ◌∙◌, subst, Bool, true, false, not, String, List, ◌∷◌, Result, ok, err, arith,
}
use star_car.Server.Clients.{try_receive}
use star_car.Server.Connections.{
  StreamEvent, frame, heartbeat, Stage, registered, waiting, leaving, greeting, delivering,
  Connection, is_idle, is_active, is_unlisted, stage_of_initial, StreamMove, refused, registers,
  marshals, greets, greets_in_vain, takes, finds_closed, delivers, delivers_in_vain, beats,
  beats_in_vain, disconnects, unlists, closes,
}
use star_car.Server.Process.Known.{
  IsLast, Fits, IsLast-marshals, IsLast-greets, IsLast-delivers, IsLast-beats,
}

module _ {current : Result String} {announced busy : Bool} where
  -- The invariant's last field at a stage that is known.
  IsLast-at :
      (c : Connection) (st : Stage)
      → c.stage ≡ st
      → Fits current announced busy c
      → (text : String) → current ≡ ok text
      → announced ≡ false
      → is_idle c.turn ≡ true
      → c.failed ≡ false
      → IsLast text st c.channel.buffer c.written
  IsLast-at c st e h text m a i f =
      subst (λ x. IsLast text x c.channel.buffer c.written) e (h.newest text m a i f)

  is_listed :
      (c : Connection) (st : Stage)
      → c.stage ≡ st
      → is_active st ≡ true
      → Fits current announced busy c
      → c.channel.listed ≡ true
  is_listed c st e act h = h.listed (ap is_active e ∙ act)

  -- The handler goes on without a change of its channel's state.
  goes_on :
      (c : Connection) (st : Stage) (w : List StreamEvent) (fail : Bool)
      → c.channel.listed ≡ true
      → is_unlisted st ≡ false
      → Fits current announced busy c
      → ((text : String)
          → current ≡ ok text
          → announced ≡ false
          → is_idle c.turn ≡ true
          → fail ≡ false
          → IsLast text st c.channel.buffer w)
      → Fits current announced busy (record c { stage = st; written = w; failed = fail })
  goes_on c st w fail l u h k = record {
    listed = λ x. l;
    taken_out = λ x. cc (x, u);
    open_channel = h.open_channel;
    due = h.due;
    quiet = h.quiet;
    drained = h.drained;
    newest = k;
  }

  marshals-Fits :
      (c : Connection) (m : Result String)
      → current ≡ m
      → c.stage ≡ registered
      → Fits current announced busy c
      → Fits current announced busy (record c { stage = stage_of_initial m })
  unfolding stage_of_initial
  marshals-Fits c (ok first) e r h =
      goes_on c (greeting first) c.written c.failed (is_listed c registered r refl h) refl h
        λ text m a i f.
          IsLast-marshals text first c.channel.buffer c.written (cc (e, m))
            (IsLast-at c registered r h text m a i f)
  marshals-Fits c (err x) e r h =
      goes_on c waiting c.written c.failed (is_listed c registered r refl h) refl h
        (λ text m a i f. absurd (cc (e, m)))

  pub StreamMove-Fits :
      {free : Bool} {c d : Connection}
      → StreamMove current free c d
      → free ≡ not busy
      → Fits current announced busy c
      → Fits current announced busy d
  unfolding try_receive
  StreamMove-Fits (refused c e) fr h = record {
    listed = λ x. cc x;
    taken_out = λ u. cc u;
    open_channel = h.open_channel;
    due = h.due;
    quiet = h.quiet;
    drained = h.drained;
    newest = λ text m a i f. tt;
  }
  StreamMove-Fits (registers c e x) fr h = record {
    listed = λ y. refl;
    taken_out = λ u. cc u;
    open_channel = λ y. refl;
    due = λ y. refl;
    quiet = h.quiet;
    drained = λ y. refl;
    newest = λ text m a i f. tt;
  }
  StreamMove-Fits (marshals c e) fr h = marshals-Fits c current refl e h
  StreamMove-Fits (greets c first e) fr h =
      goes_on c waiting (frame first ∷ c.written) c.failed (is_listed c (greeting first) e refl h)
        refl h
        λ text m a i f.
          IsLast-greets text first c.channel.buffer c.written
            (IsLast-at c (greeting first) e h text m a i f)
  StreamMove-Fits (greets_in_vain c first e) fr h =
      goes_on c waiting c.written true (is_listed c (greeting first) e refl h) refl h
        (λ text m a i f. cc f)
  StreamMove-Fits (takes c next e b) fr h = record {
    listed = λ x. is_listed c waiting e refl h;
    taken_out = λ u. cc u;
    open_channel = h.open_channel;
    due = h.due;
    quiet = h.quiet;
    drained = λ x. refl;
    newest = λ text m a i f.
        subst (λ x. IsLast text waiting x c.written) b (IsLast-at c waiting e h text m a i f);
  }
  StreamMove-Fits (finds_closed c e x b) fr h =
      absurd (cc (sym x ∙ h.open_channel (is_listed c waiting e refl h)))
  StreamMove-Fits (delivers c next e) fr h =
      goes_on c waiting (frame next ∷ c.written) c.failed (is_listed c (delivering next) e refl h)
        refl h
        λ text m a i f.
          IsLast-delivers text next c.channel.buffer c.written
            (IsLast-at c (delivering next) e h text m a i f)
  StreamMove-Fits (delivers_in_vain c next e) fr h =
      goes_on c leaving c.written true (is_listed c (delivering next) e refl h) refl h
        (λ text m a i f. tt)
  StreamMove-Fits (beats c e) fr h = record {
    listed = h.listed;
    taken_out = h.taken_out;
    open_channel = h.open_channel;
    due = h.due;
    quiet = h.quiet;
    drained = h.drained;
    newest = λ text m a i f.
        subst (λ x. IsLast text x c.channel.buffer (heartbeat ∷ c.written)) (sym e)
          (IsLast-beats text c.channel.buffer c.written (IsLast-at c waiting e h text m a i f));
  }
  StreamMove-Fits (beats_in_vain c e) fr h =
      goes_on c leaving c.written true (is_listed c waiting e refl h) refl h (λ text m a i f. tt)
  StreamMove-Fits (disconnects c e) fr h =
      goes_on c leaving c.written c.failed (is_listed c waiting e refl h) refl h
        (λ text m a i f. tt)
  StreamMove-Fits (unlists c e x) fr h = record {
    listed = λ y. cc y;
    taken_out = λ y. refl;
    open_channel = λ y. cc y;
    due = λ y. absurd (cc (y, h.quiet (ground (arith, fr, x))));
    quiet = h.quiet;
    drained = h.drained;
    newest = λ text m a i f. tt;
  }
  StreamMove-Fits (closes c e) fr h =
      let out : c.channel.listed ≡ false = h.taken_out (ap is_unlisted e) in
      record {
        listed = λ y. cc y;
        taken_out = λ y. out;
        open_channel = λ y. sym (sym out ∙ y);
        due = h.due;
        quiet = h.quiet;
        drained = h.drained;
        newest = λ text m a i f. tt;
      }
