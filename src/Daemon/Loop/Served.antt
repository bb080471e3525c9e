-- ===== src/Daemon/Loop/Served.antt =====
-- `bw2_daemon` on the bytes of a frame, from the connection to the callbacks.
use bw2c.Base.{ℕ, suc, ◌∙◌, ◌<◌, ◌≡◌, refl, true, Option, some, ◌++◌, Bytes}
use bw2c.Frame.{Frame}
use bw2c.Frame.Wire.{frame_bytes, IsWireFrame}
use bw2c.Frame.Read.{read_frame}
use bw2c.Frame.Objects.{HasRoom}
use bw2c.Frame.RoundTrip.{frame_need, objects, read_frame-frame_bytes}
use bw2c.Os.{Source}
use bw2c.Run.{ok}
use bw2c.Daemon.Client.{Client}
use bw2c.Daemon.Loop.{World, daemon, daemon_step, serve}

module _ (os : Source) where
  open os use {State, incoming}

  daemon_step-connected :
      (rounds : ℕ) (f : Frame) (client : Client)
      → client.connected ≡ true
      → daemon_step rounds (some f) client ≡ serve f client
  unfolding daemon_step
  daemon_step-connected rounds f client c = rw c refl

  daemon_round :
      (fuel rounds : ℕ) (heap : Option ℕ) (f : Frame) (w : World os) (s' : State) (client' : Client)
      → read_frame os rounds heap w.input ≡ ok f s'
      → daemon_step rounds (some f) w.client ≡ ok true client'
      → daemon os (suc fuel) rounds heap w
        ≡ daemon os fuel rounds heap (record { input = s'; client = client' })
  unfolding daemon
  daemon_round fuel rounds heap f w s' client' e d = rw (daemon, e, d) refl

  -- Where a frame stands on the connection in its wire format, in whatever pieces it arrives, with
  -- room for it in the frame heap and a round for each of its objects and one more: the daemon of
  -- a connected client hands exactly this frame to the requests, and if their callbacks follow no
  -- null pointer it goes on with the bytes behind it.
  pub daemon-frame_bytes :
      (f : Frame) (fuel rounds : ℕ) (heap : Option ℕ) (w : World os) (rest : Bytes)
      (client' : Client)
      → IsWireFrame f
      → objects f < rounds
      → HasRoom os heap 0 (frame_need f)
      → incoming w.input ≡ frame_bytes f ++ rest
      → w.client.connected ≡ true
      → serve f w.client ≡ ok true client'
      → (s' : State) × (daemon os (suc fuel) rounds heap w
          ≡ daemon os fuel rounds heap (record { input = s'; client = client' }))
        × (incoming s' ≡ rest)
  daemon-frame_bytes f fuel rounds heap w rest client' wire lt room i c e =
      let (s', r, i') = read_frame-frame_bytes os f rounds heap w.input rest wire lt room i in
      (
        s',
        daemon_round fuel rounds heap f w s' client' r
            (daemon_step-connected rounds f w.client c ∙ e),
        i',
      )
