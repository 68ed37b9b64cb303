-- ===== src/Devices/Archon/Buffers/Images.antt =====
-- That an image comes through whole: `fetch_buffer` of devices/archon/archon.cpp.
use foxtrot.Base.{ℕ, ◌≡◌, Bool, ok, if◌then◌else◌}
use foxtrot.Base.Int.{ℤ, pos}
use foxtrot.Base.Texts.{Text, bytes}
use foxtrot.Base.Dict.{Dict}
use foxtrot.Devices.Archon.{Archon}
use foxtrot.Devices.Archon.Frame.{at, int_at, buffer_key}
use foxtrot.Devices.Archon.Buffers.{address_in}

-- What the status of the frames has on a buffer.
pub record Describes (frame : Dict Text Text) (buf : ℤ) (width height baseaddr : ℕ) (is32 : Bool)
    : Type 0 where
  pub has_width : int_at (buffer_key buf (bytes "WIDTH")) frame ≡ ok (pos width)
  pub has_height : int_at (buffer_key buf (bytes "HEIGHT")) frame ≡ ok (pos height)
  pub has_base : address_in (at (buffer_key buf (bytes "BASE")) frame) ≡ ok baseaddr
  pub has_sample : int_at (buffer_key buf (bytes "SAMPLE")) frame ≡ ok (pos (if is32 then 1 else 0))
