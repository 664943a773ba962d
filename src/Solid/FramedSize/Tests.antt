-- ===== src/Solid/FramedSize/Tests.antt =====
-- The framed size of small payloads.
use mosaic_archive.Base.{◌≡◌, refl, ok, err, value_error}
use mosaic_archive.Base.Int.{pos, negsuc}
use mosaic_archive.Solid.FramedSize.{solid_lane_framed_size}

framed_size-sample : solid_lane_framed_size (pos 2500) 1024 256 ≡ ok 3150
unfolding solid_lane_framed_size
framed_size-sample = refl

negative_refused : solid_lane_framed_size (negsuc 0) 1024 256 ≡ err value_error
unfolding solid_lane_framed_size
negative_refused = refl
