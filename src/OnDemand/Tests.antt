-- ===== src/OnDemand/Tests.antt =====
-- The first session of a subsession.
use dorsvr.Common.{◌≡◌, refl, true, false, none, some}
use dorsvr.Common.Text.{codes}
use dorsvr.OnDemand.{Opened, no_streams, new_subsession, new_destinations}
use dorsvr.OnDemand.Sessions.{
  set_up_and_delete, play_and_delete, comes_back, delete_stream-unstarted, delete_stream-over_udp,
}

abbrev six_thousand : Opened
six_thousand = record { rtp_port = 6970; rtcp_port = 6971; has_source = true }

none_yet : (no_streams.subsessions 0 0).last_stream_token ≡ none
unfolding no_streams new_subsession
none_yet = refl

delete_stream-unstarted_example :
    set_up_and_delete six_thousand no_streams 0 0
      (codes "77")
      (new_destinations none 3 5000 5001 255 255)
    ≡ none
delete_stream-unstarted_example =
    delete_stream-unstarted six_thousand no_streams 0 0 (codes "77") none 3 5000 5001 255 255
      none_yet

-- Over TCP, on connection 3.
delete_stream-over_udp_example :
    comes_back (
      play_and_delete six_thousand no_streams 0 0
        (codes "77")
        (new_destinations (some 3) 3 5000 5001 0 2))
    ≡ false
delete_stream-over_udp_example =
    delete_stream-over_udp six_thousand no_streams 0 0 (codes "77") (some 3) 3 5000 5001 0 2
      none_yet

udp_comes_back :
    comes_back (
      play_and_delete six_thousand no_streams 0 0
        (codes "77")
        (new_destinations none 3 5000 5001 255 255))
    ≡ true
udp_comes_back =
    delete_stream-over_udp six_thousand no_streams 0 0 (codes "77") none 3 5000 5001 255 255
      none_yet
