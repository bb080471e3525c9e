-- ===== src/Daemon/Connect/Fails.antt =====
-- What `bw2_connect` leaves behind where it returns a code.
use bw2c.Base.{◌+◌, ◌⊎◌, ◌≡◌, true, false}
use bw2c.Frame.{Frame}
use bw2c.Os.{Source}
use bw2c.Run.{Error, Run, system_resource_unavailable, connection_lost}
use bw2c.Daemon.Client.{Client}
use bw2c.Daemon.Loop.{World}
use bw2c.Daemon.Connect.{Dialer, connect}

-- The client with its socket closed once more.
abbrev pub closed_once : Client → Client
closed_once client = record client { closed = client.closed + 1 }

module _ (os : Source) (dialer : Dialer os) where
  -- Where the failure of `bw2_connect` lies, with the code and what has become of the client.
  abbrev pub IsFailure : World os → Error → World os → Type 0
  IsFailure w e w' =
      let (got, s) = dialer.socket w.input in
      ((got ≡ false) × (e ≡ system_resource_unavailable) × (w'.client ≡ w.client))
      ⊎ ((got ≡ true)
          × ((dialer.connect s).0 ≡ false)
          × (e ≡ connection_lost)
          × (w'.client ≡ w.client))
      ⊎ ((got ≡ true) × ((dialer.connect s).0 ≡ true) × (w'.client ≡ closed_once w.client))
