-- ===== src/Devices/Apt/Layouts.antt =====
-- That the structs survive the way to bytes and back.
use foxtrot.Base.{ℕ, ◌<◌, ◌≡◌, arith, some, ◌++◌, length, length-append}
use foxtrot.Devices.Apt.Bytes.{u16, u32, take_bytes-append}
use foxtrot.Devices.Apt.Structs.{
  Layout, HwInfo, hwinfo_layout, ChannelStatus, channel_status_layout, DcStatus, dcstatus_layout,
  VelocityParams, velocity_params_layout, HomeParams, homeparams_layout, LimitSwitchParams,
  limitswitchparams_layout, PosCounter, poscounter_layout,
}

-- Of a layout: values that fit their fields come back, and their bytes are as many as `sizeof` says.
pub record IsLayout {T : Type 0} (l : Layout T) (Fits : T → Type 0) (size : ℕ) : Type 0 where
  pub unpack-pack : (x : T) → Fits x → l.unpack (l.pack x) ≡ some x
  pub length-pack : (x : T) → Fits x → length (l.pack x) ≡ size

abbrev pub IsU16 : ℕ → Type 0
IsU16 n = n < 65536

abbrev pub IsU32 : ℕ → Type 0
IsU32 n = n < 4294967296

abbrev pub HwInfoFits : HwInfo → Type 0
HwInfoFits h =
    IsU32 h.serno
    × (length h.modelno ≡ 8)
    × IsU16 h.type
    × IsU32 h.fwvers
    × (length h.notes ≡ 48)
    × (length h.emptyspace ≡ 12)
    × IsU16 h.hw_vers
    × IsU16 h.modstate
    × IsU16 h.nchans

abbrev pub ChannelStatusFits : ChannelStatus → Type 0
ChannelStatusFits s = IsU16 s.chan_ident × IsU32 s.position × IsU32 s.enccount × IsU32 s.statusbits

abbrev pub DcStatusFits : DcStatus → Type 0
DcStatusFits s =
    IsU16 s.chan_ident
    × IsU32 s.position
    × IsU16 s.velocity
    × IsU16 s.motorcurrent
    × IsU32 s.statusbits

abbrev pub VelocityParamsFits : VelocityParams → Type 0
VelocityParamsFits v = IsU16 v.chan_ident × IsU32 v.minvel × IsU32 v.acceleration × IsU32 v.maxvel

abbrev pub HomeParamsFits : HomeParams → Type 0
HomeParamsFits h =
    IsU16 h.chan_ident
    × IsU16 h.home_dir
    × IsU16 h.limit_switch
    × IsU32 h.home_velocity
    × IsU32 h.offset_distance

abbrev pub LimitSwitchParamsFits : LimitSwitchParams → Type 0
LimitSwitchParamsFits l =
    IsU16 l.chan_ident
    × IsU16 l.cw_hard
    × IsU16 l.ccw_hard
    × IsU32 l.cw_soft
    × IsU32 l.ccw_soft
    × IsU16 l.limit_mode

abbrev pub PosCounterFits : PosCounter → Type 0
PosCounterFits p = IsU16 p.chan_ident × IsU32 p.position_counter_value

hwinfo_unpack-pack :
    (h : HwInfo) → HwInfoFits h → hwinfo_layout.unpack (hwinfo_layout.pack h) ≡ some h
unfolding hwinfo_layout
hwinfo_unpack-pack h f =
    let end = u16 h.hw_vers ++ (u16 h.modstate ++ u16 h.nchans) in
    let tail = u16 h.type ++ (u32 h.fwvers ++ (h.notes ++ (h.emptyspace ++ end))) in
    ground (
      arith,
      take_bytes-append 8 h.modelno tail f.1,
      take_bytes-append 48 h.notes (h.emptyspace ++ end) f.4,
      take_bytes-append 12 h.emptyspace end f.5,
    )

hwinfo_length-pack : (h : HwInfo) → HwInfoFits h → length (hwinfo_layout.pack h) ≡ 84
unfolding hwinfo_layout
hwinfo_length-pack h f =
    let end = u16 h.hw_vers ++ (u16 h.modstate ++ u16 h.nchans) in
    let tail = u16 h.type ++ (u32 h.fwvers ++ (h.notes ++ (h.emptyspace ++ end))) in
    omega (
      arith,
      length-append h.modelno tail,
      length-append h.notes (h.emptyspace ++ end),
      length-append h.emptyspace end,
    )

-- Each of the seven packed structs is read back from its bytes as it was, if its fields fit their
-- types and its arrays have their lengths, and takes as many bytes as its fields together.
pub layouts-IsLayout :
    IsLayout hwinfo_layout HwInfoFits 84
    × IsLayout channel_status_layout ChannelStatusFits 14
    × IsLayout dcstatus_layout DcStatusFits 14
    × IsLayout velocity_params_layout VelocityParamsFits 14
    × IsLayout homeparams_layout HomeParamsFits 14
    × IsLayout limitswitchparams_layout LimitSwitchParamsFits 16
    × IsLayout poscounter_layout PosCounterFits 6
unfolding channel_status_layout dcstatus_layout velocity_params_layout homeparams_layout
    limitswitchparams_layout poscounter_layout
layouts-IsLayout = (
  record { unpack-pack = hwinfo_unpack-pack; length-pack = hwinfo_length-pack },
  record { unpack-pack = λ s f. ground arith; length-pack = λ s f. omega arith },
  record { unpack-pack = λ s f. ground arith; length-pack = λ s f. omega arith },
  record { unpack-pack = λ s f. ground arith; length-pack = λ s f. omega arith },
  record { unpack-pack = λ s f. ground arith; length-pack = λ s f. omega arith },
  record { unpack-pack = λ s f. ground arith; length-pack = λ s f. omega arith },
  record { unpack-pack = λ s f. ground arith; length-pack = λ s f. omega arith },
)
