-- ===== src/Devices/Archon/Settings.antt =====
-- Settings of the controller that are configuration lines: devices/archon/archon.cpp. A setter writes the
-- line and tells the controller to apply it.
use foxtrot.Base.{ℕ, ◌%◌, ◌+◌, ◌-◌, ◌==◌, Bool, true, false, not, Option}
use foxtrot.Base.Int.{ℤ, pos, negsuc}
use foxtrot.Base.Texts.{Text, bytes}
use foxtrot.Base.Action.{◌>>=◌, ◌>>◌, give}
use foxtrot.Devices.Archon.{Member, order_cmd, write_int, read_int}

-- `(int) onoff`, and back.
abbrev pub bool_int : Bool → ℤ
bool_int true = pos 1
bool_int false = pos 0

abbrev pub int_bool : ℤ → Bool
int_bool (pos n) = not (n == 0)
int_bool (negsuc n) = true

-- A conversion to `unsigned short`.
abbrev pub int_u16 : ℤ → ℕ
int_u16 (pos n) = n % 65536
int_u16 (negsuc n) = (65536 - (n + 1) % 65536) % 65536

module _ {Dev : Type 0} (transact : Text → Dev → Option Text × Dev) where
  unfoldable pub set_int : Text → Text → ℤ → Member Dev (Unit {0})
  unfolding write_int order_cmd ◌>>◌
  set_int key apply n = write_int transact key n >> order_cmd transact apply

  unfoldable pub set_bool : Text → Text → Bool → Member Dev (Unit {0})
  unfolding set_int
  set_bool key apply onoff = set_int key apply (bool_int onoff)

  -- Of an `unsigned short`.
  unfoldable pub set_u16 : Text → Text → ℕ → Member Dev (Unit {0})
  unfolding set_int
  set_u16 key apply n = set_int key apply (pos n)

  unfoldable pub read_bool : Text → Member Dev Bool
  unfolding read_int ◌>>=◌
  read_bool key = read_int transact key >>= (λ n. give (int_bool n))

  unfoldable pub read_u16 : Text → Member Dev ℕ
  unfolding read_int ◌>>=◌
  read_u16 key = read_int transact key >>= (λ n. give (int_u16 n))

  unfoldable pub set_tap_pixels : ℕ → Member Dev (Unit {0})
  unfolding set_u16
  set_tap_pixels = set_u16 (bytes "PIXELCOUNT") (bytes "APPLYCDS")

  unfoldable pub get_tap_pixels : Member Dev ℕ
  unfolding read_u16
  get_tap_pixels = read_u16 (bytes "PIXELCOUNT")

  unfoldable pub set_tap_lines : ℕ → Member Dev (Unit {0})
  unfolding set_u16
  set_tap_lines = set_u16 (bytes "LINECOUNT") (bytes "APPLYCDS")

  unfoldable pub get_tap_lines : Member Dev ℕ
  unfolding read_u16
  get_tap_lines = read_u16 (bytes "LINECOUNT")

  unfoldable pub setrawchannel : ℤ → Member Dev (Unit {0})
  unfolding set_int
  setrawchannel = set_int (bytes "RAWSEL") (bytes "APPLYCDS")

  unfoldable pub getrawchannel : Member Dev ℤ
  unfolding read_int
  getrawchannel = read_int transact (bytes "RAWSEL")

  unfoldable pub setrawenable : Bool → Member Dev (Unit {0})
  unfolding set_bool
  setrawenable = set_bool (bytes "RAWENABLE") (bytes "APPLYCDS")

  unfoldable pub getrawenable : Member Dev Bool
  unfolding read_bool
  getrawenable = read_bool (bytes "RAWENABLE")

  unfoldable pub setrawendline : ℤ → Member Dev (Unit {0})
  unfolding set_int
  setrawendline = set_int (bytes "RAWENDLINE") (bytes "APPLYCDS")

  unfoldable pub getrawendline : Member Dev ℤ
  unfolding read_int
  getrawendline = read_int transact (bytes "RAWENDLINE")

  unfoldable pub setrawsamples : ℤ → Member Dev (Unit {0})
  unfolding set_int
  setrawsamples = set_int (bytes "RAWSAMPLES") (bytes "APPLYCDS")

  unfoldable pub getrawsamples : Member Dev ℤ
  unfolding read_int
  getrawsamples = read_int transact (bytes "RAWSAMPLES")

  unfoldable pub setrawstartline : ℤ → Member Dev (Unit {0})
  unfolding set_int
  setrawstartline = set_int (bytes "RAWSTARTLINE") (bytes "APPLYCDS")

  unfoldable pub getrawstartline : Member Dev ℤ
  unfolding read_int
  getrawstartline = read_int transact (bytes "RAWSTARTLINE")

  unfoldable pub setrawstartpixel : ℤ → Member Dev (Unit {0})
  unfolding set_int
  setrawstartpixel = set_int (bytes "RAWSTARTPIXEL") (bytes "APPLYCDS")

  unfoldable pub getrawstartpixel : Member Dev ℤ
  unfolding read_int
  getrawstartpixel = read_int transact (bytes "RAWSTARTPIXEL")

  unfoldable pub settrigoutinvert : Bool → Member Dev (Unit {0})
  unfolding set_bool
  settrigoutinvert = set_bool (bytes "TRIGOUTINVERT") (bytes "APPLYSYSTEM")

  unfoldable pub gettrigoutinvert : Member Dev Bool
  unfolding read_bool
  gettrigoutinvert = read_bool (bytes "TRIGOUTINVERT")

  unfoldable pub settrigoutpower : Bool → Member Dev (Unit {0})
  unfolding set_bool
  settrigoutpower = set_bool (bytes "TRIGOUTPOWER") (bytes "APPLYSYSTEM")

  unfoldable pub gettrigoutpower : Member Dev Bool
  unfolding read_bool
  gettrigoutpower = read_bool (bytes "TRIGOUTPOWER")

  unfoldable pub settrigoutforce : Bool → Member Dev (Unit {0})
  unfolding set_bool
  settrigoutforce = set_bool (bytes "TRIGOUTFORCE") (bytes "APPLYSYSTEM")

  unfoldable pub gettrigoutforce : Member Dev Bool
  unfolding read_bool
  gettrigoutforce = read_bool (bytes "TRIGOUTFORCE")

  unfoldable pub settrigoutlevel : Bool → Member Dev (Unit {0})
  unfolding set_bool
  settrigoutlevel = set_bool (bytes "TRIGOUTLEVEL") (bytes "APPLYSYSTEM")

  unfoldable pub gettrigoutlevel : Member Dev Bool
  unfolding read_bool
  gettrigoutlevel = read_bool (bytes "TRIGOUTLEVEL")

  unfoldable pub setframemode : ℤ → Member Dev (Unit {0})
  unfolding set_int
  setframemode = set_int (bytes "FRAMEMODE") (bytes "APPLYCDS")

  unfoldable pub getframemode : Member Dev ℤ
  unfolding read_int
  getframemode = read_int transact (bytes "FRAMEMODE")

  unfoldable pub set_cds_timing : ℤ → ℤ → ℤ → ℤ → Member Dev (Unit {0})
  unfolding write_int order_cmd ◌>>◌
  set_cds_timing reset_start reset_end signal_start signal_end = do
    write_int transact (bytes "SHP1") reset_start
    write_int transact (bytes "SHP2") reset_end
    write_int transact (bytes "SHD1") signal_start
    write_int transact (bytes "SHD2") signal_end
    order_cmd transact (bytes "APPLYCDS")

  unfoldable pub getreset_start : Member Dev ℤ
  unfolding read_int
  getreset_start = read_int transact (bytes "SHP1")

  unfoldable pub getreset_end : Member Dev ℤ
  unfolding read_int
  getreset_end = read_int transact (bytes "SHP2")

  unfoldable pub getsignal_start : Member Dev ℤ
  unfolding read_int
  getsignal_start = read_int transact (bytes "SHD1")

  unfoldable pub getsignal_end : Member Dev ℤ
  unfolding read_int
  getsignal_end = read_int transact (bytes "SHD2")

  unfoldable pub get_timing_lines : Member Dev ℤ
  unfolding read_int
  get_timing_lines = read_int transact (bytes "LINES")

  unfoldable pub get_states : Member Dev ℤ
  unfolding read_int
  get_states = read_int transact (bytes "STATES")

  unfoldable pub get_constants : Member Dev ℤ
  unfolding read_int
  get_constants = read_int transact (bytes "CONSTANTS")

  unfoldable pub get_parameters : Member Dev ℤ
  unfolding read_int
  get_parameters = read_int transact (bytes "PARAMETERS")

  unfoldable pub set_timing_lines : ℤ → Member Dev (Unit {0})
  unfolding write_int
  set_timing_lines n = write_int transact (bytes "LINES") n

  unfoldable pub set_states : ℤ → Member Dev (Unit {0})
  unfolding write_int
  set_states n = write_int transact (bytes "STATES") n

  unfoldable pub set_constants : ℤ → Member Dev (Unit {0})
  unfolding write_int
  set_constants n = write_int transact (bytes "CONSTANTS") n

  unfoldable pub set_parameters : ℤ → Member Dev (Unit {0})
  unfolding write_int
  set_parameters n = write_int transact (bytes "PARAMETERS") n

  unfoldable pub applyall : Member Dev (Unit {0})
  unfolding order_cmd
  applyall = order_cmd transact (bytes "APPLYALL")

  unfoldable pub apply_all_params : Member Dev (Unit {0})
  unfolding order_cmd
  apply_all_params = order_cmd transact (bytes "LOADPARAMS")

  unfoldable pub hold_timing : Member Dev (Unit {0})
  unfolding order_cmd
  hold_timing = order_cmd transact (bytes "HOLDTIMING")

  unfoldable pub release_timing : Member Dev (Unit {0})
  unfolding order_cmd
  release_timing = order_cmd transact (bytes "RELEASETIMING")

  unfoldable pub reset_timing : Member Dev (Unit {0})
  unfolding order_cmd
  reset_timing = order_cmd transact (bytes "RESETTIMING")

  unfoldable pub load_timing : Member Dev (Unit {0})
  unfolding order_cmd
  load_timing = order_cmd transact (bytes "LOADTIMING")

  unfoldable pub unlockbuffers : Member Dev (Unit {0})
  unfolding order_cmd
  unlockbuffers = order_cmd transact (bytes "LOCK0")
