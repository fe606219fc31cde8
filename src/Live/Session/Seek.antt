-- ===== src/Live/Session/Seek.antt =====
-- Where SeekLiveTimeshiftStream lands.
use pvr_dispatcharrai.Prelude.{true}
use pvr_dispatcharrai.Prelude.Text.{Text}
use pvr_dispatcharrai.Stream.{Whence, seek_end}
use pvr_dispatcharrai.Live.{LiveSegment-SegmentT, LiveStream}
use pvr_dispatcharrai.Live.Manifest.{LiveRefreshEnv}
use pvr_dispatcharrai.Live.Manifest.Layout.{
  AreHonestIn, Kept, Kept-refl, refresh_live_manifest-Kept,
}
use pvr_dispatcharrai.Live.Session.{before_live_seek}

module _ (content : Text → Text) (host : Text) where
  pub before_live_seek-Kept :
      (whence : Whence) (env : LiveRefreshEnv) (s : LiveStream)
      → AreHonestIn content env.reply.segments
      → Kept content s (before_live_seek host whence env s)
  unfolding before_live_seek
  before_live_seek-Kept seek_end env s honest =
      refresh_live_manifest-Kept content host true env s honest
  before_live_seek-Kept _ env s honest = Kept-refl content s

  -- The stream at the end of a seek, before the landing.
  abbrev looked : LiveRefreshEnv → Whence → LiveStream → LiveStream
  looked env whence s = before_live_seek host whence env (record s { last_seek_time = env.now })
