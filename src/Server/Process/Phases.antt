-- ===== src/Server/Process/Phases.antt =====
-- About one client of the running server (sse.go): what stays true of it as a poll goes on from
-- one phase to the next.
use star_car.Prelude.{◌≡◌, refl, Bool, true, false, String, Result, err, if◌then◌else◌}
use star_car.Platform.{Platform}
use star_car.Server.Connections.{Connection, is_idle, give_turn, sending}
use star_car.Server.Process.Known.{Fits}
use star_car.Server.Process.Turns.{inactive, IsLast-unlisted}

module _ ⦃p : Platform⦄ where
  pub announced-Fits :
      (m n : Result String) (c : Connection) → Fits m false false c → Fits n true false c
  announced-Fits m n c h = record {
    listed = h.listed;
    taken_out = h.taken_out;
    open_channel = h.open_channel;
    due = h.due;
    quiet = h.quiet;
    drained = h.drained;
    newest = λ text e a. absurd (cc a);
  }

  pub unmarshalled-Fits :
      (m : Result String) (e : String) (c : Connection)
      → m ≡ err e
      → Fits m true false c
      → Fits m false false c
  unmarshalled-Fits m e c x h = record {
    listed = h.listed;
    taken_out = h.taken_out;
    open_channel = h.open_channel;
    due = h.due;
    quiet = h.quiet;
    drained = h.drained;
    newest = λ text k. absurd (cc (x, k));
  }

  pub served-Fits :
      (m : Result String) (c : Connection)
      → Fits m false true c
      → is_idle c.turn ≡ true
      → Fits m false false c
  served-Fits m c h i = record {
    listed = h.listed;
    taken_out = h.taken_out;
    open_channel = h.open_channel;
    due = h.due;
    quiet = λ x. i;
    drained = h.drained;
    newest = h.newest;
  }

  pub give_turn-Fits :
      (m : Result String) (c : Connection) → Fits m true false c → Fits m false true (give_turn c)
  unfolding give_turn
  give_turn-Fits m c h = given c.channel.listed refl
    where
      given :
          (b : Bool)
          → c.channel.listed ≡ b
          → Fits m false true (record c { turn = if b then sending else c.turn })
      given true e = record {
        listed = h.listed;
        taken_out = h.taken_out;
        open_channel = h.open_channel;
        due = λ x. e;
        quiet = λ x. cc x;
        drained = λ x. cc x;
        newest = λ text k a i. cc i;
      }
      given false e = record {
        listed = h.listed;
        taken_out = h.taken_out;
        open_channel = h.open_channel;
        due = h.due;
        quiet = λ x. cc x;
        drained = h.drained;
        newest = λ text k a i f.
            IsLast-unlisted text c.stage c.channel.buffer c.written (inactive c h e);
      }
