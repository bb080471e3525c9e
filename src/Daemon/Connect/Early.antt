-- ===== src/Daemon/Connect/Early.antt =====
-- The time between the start of the daemon's thread and the last assignment of `bw2_connect`.
use bw2c.Base.{ℕ, suc, ◌<◌, ◌≡◌, refl, false, Option, none, [], ◌∷◌, ◌++◌, Bytes}
use bw2c.Frame.{Frame}
use bw2c.Frame.Objects.{HasRoom}
use bw2c.Frame.RoundTrip.{frame_need, objects, read_frame-frame_bytes}
use bw2c.Frame.Wire.{frame_bytes, IsWireFrame}
use bw2c.Os.{Source}
use bw2c.Run.{ok}
use bw2c.Daemon.Request.{ReqCtx}
use bw2c.Daemon.Client.{enqueue}
use bw2c.Daemon.Loop.{World, daemon}
use bw2c.Daemon.Loop.Lost.{daemon_step-unconnected}
use bw2c.Daemon.Connect.{Dialer, mark_connected}

module _ (os : Source) where
  open os use {incoming}

  -- A frame that comes in between, in its wire format, with room for it in the frame heap and rounds
  -- enough to read it, and with no request outstanding: the daemon reads it, takes the client for
  -- disconnected and ends; the last assignment then marks the client as connected, so that a request
  -- is put in the list that no daemon serves.
  pub daemon-early :
      (dialer : Dialer os) (n rounds : ℕ) (heap : Option ℕ) (f req : Frame) (r : ReqCtx)
      (rest : Bytes) (w : World os)
      → incoming w.input ≡ frame_bytes f ++ rest
      → IsWireFrame f
      → objects f < rounds
      → HasRoom os heap 0 (frame_need f)
      → w.client.connected ≡ false
      → w.client.reqs ≡ []
      → (w' : World os) × (daemon os (suc n) rounds heap w ≡ ok tt w')
        × (incoming w'.input ≡ rest)
        × (w'.client ≡ w.client)
        × ((enqueue req r (mark_connected os dialer w').client).0 ≡ none)
        × ((enqueue req r (mark_connected os dialer w').client).1.reqs
            ≡ record r { seqno = req.seqno } ∷ w'.client.reqs)
  unfolding daemon mark_connected enqueue
  daemon-early dialer n rounds heap f req r rest w i wire lt room c e =
      let (s, h, i') = read_frame-frame_bytes os f rounds heap w.input rest wire lt room i in
      (
        record { input = s; client = w.client },
        rw (daemon, h, daemon_step-unconnected rounds f w.client c e) refl,
        i',
        refl,
        refl,
        refl,
      )
