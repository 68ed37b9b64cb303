-- ===== src/Devices/Apt/Structs.antt =====
-- The packed structs of devices/Thorlabs_APT/APT_defs.hh, as `copy_struct_to_array` of APT.h makes bytes
-- of them on a little-endian machine, and as `_response_struct_common` reads them.
use foxtrot.Base.{ℕ, Option, some, List, ◌++◌}
use foxtrot.Devices.Apt.Bytes.{u16, u32, ◌>>=◌, take_u16, take_u32, take_bytes, whole}

-- How a struct is laid out.
pub record Layout (T : Type 0) : Type 0 where
  pub pack : T → List ℕ
  pub unpack : List ℕ → Option T

pub record HwInfo : Type 0 where
  pub serno : ℕ
  pub modelno : List ℕ
  pub type : ℕ
  pub fwvers : ℕ
  pub notes : List ℕ
  pub emptyspace : List ℕ
  pub hw_vers : ℕ
  pub modstate : ℕ
  pub nchans : ℕ

unfoldable pub hwinfo_layout : Layout HwInfo
hwinfo_layout = record {
  pack = λ h.
      u32 h.serno
      ++ (h.modelno
          ++ (u16 h.type
              ++ (u32 h.fwvers
                  ++ (h.notes
                      ++ (h.emptyspace ++ (u16 h.hw_vers ++ (u16 h.modstate ++ u16 h.nchans)))))));
  unpack = λ bs. whole (
      (do
        serno ← take_u32
        modelno ← take_bytes 8
        type ← take_u16
        fwvers ← take_u32
        notes ← take_bytes 48
        emptyspace ← take_bytes 12
        hw_vers ← take_u16
        modstate ← take_u16
        nchans ← take_u16
        λ rest. some (
          record {
            serno = serno;
            modelno = modelno;
            type = type;
            fwvers = fwvers;
            notes = notes;
            emptyspace = emptyspace;
            hw_vers = hw_vers;
            modstate = modstate;
            nchans = nchans;
          },
          rest,
        ))
        bs);
}

pub record ChannelStatus : Type 0 where
  pub chan_ident : ℕ
  pub position : ℕ
  pub enccount : ℕ
  pub statusbits : ℕ

unfoldable pub channel_status_layout : Layout ChannelStatus
channel_status_layout = record {
  pack = λ s. u16 s.chan_ident ++ (u32 s.position ++ (u32 s.enccount ++ u32 s.statusbits));
  unpack = λ bs. whole (
      (do
        chan_ident ← take_u16
        position ← take_u32
        enccount ← take_u32
        statusbits ← take_u32
        λ rest. some (
          record {
            chan_ident = chan_ident;
            position = position;
            enccount = enccount;
            statusbits = statusbits;
          },
          rest,
        ))
        bs);
}

pub record DcStatus : Type 0 where
  pub chan_ident : ℕ
  pub position : ℕ
  pub velocity : ℕ
  pub motorcurrent : ℕ
  pub statusbits : ℕ

unfoldable pub dcstatus_layout : Layout DcStatus
dcstatus_layout = record {
  pack = λ s.
      u16 s.chan_ident
      ++ (u32 s.position ++ (u16 s.velocity ++ (u16 s.motorcurrent ++ u32 s.statusbits)));
  unpack = λ bs. whole (
      (do
        chan_ident ← take_u16
        position ← take_u32
        velocity ← take_u16
        motorcurrent ← take_u16
        statusbits ← take_u32
        λ rest. some (
          record {
            chan_ident = chan_ident;
            position = position;
            velocity = velocity;
            motorcurrent = motorcurrent;
            statusbits = statusbits;
          },
          rest,
        ))
        bs);
}

pub record VelocityParams : Type 0 where
  pub chan_ident : ℕ
  pub minvel : ℕ
  pub acceleration : ℕ
  pub maxvel : ℕ

unfoldable pub velocity_params_layout : Layout VelocityParams
velocity_params_layout = record {
  pack = λ v. u16 v.chan_ident ++ (u32 v.minvel ++ (u32 v.acceleration ++ u32 v.maxvel));
  unpack = λ bs. whole (
      (do
        chan_ident ← take_u16
        minvel ← take_u32
        acceleration ← take_u32
        maxvel ← take_u32
        λ rest. some (
          record {
            chan_ident = chan_ident;
            minvel = minvel;
            acceleration = acceleration;
            maxvel = maxvel;
          },
          rest,
        ))
        bs);
}

pub record HomeParams : Type 0 where
  pub chan_ident : ℕ
  pub home_dir : ℕ
  pub limit_switch : ℕ
  pub home_velocity : ℕ
  pub offset_distance : ℕ

unfoldable pub homeparams_layout : Layout HomeParams
homeparams_layout = record {
  pack = λ h.
      u16 h.chan_ident
      ++ (u16 h.home_dir ++ (u16 h.limit_switch ++ (u32 h.home_velocity ++ u32 h.offset_distance)));
  unpack = λ bs. whole (
      (do
        chan_ident ← take_u16
        home_dir ← take_u16
        limit_switch ← take_u16
        home_velocity ← take_u32
        offset_distance ← take_u32
        λ rest. some (
          record {
            chan_ident = chan_ident;
            home_dir = home_dir;
            limit_switch = limit_switch;
            home_velocity = home_velocity;
            offset_distance = offset_distance;
          },
          rest,
        ))
        bs);
}

pub record LimitSwitchParams : Type 0 where
  pub chan_ident : ℕ
  pub cw_hard : ℕ
  pub ccw_hard : ℕ
  pub cw_soft : ℕ
  pub ccw_soft : ℕ
  pub limit_mode : ℕ

unfoldable pub limitswitchparams_layout : Layout LimitSwitchParams
limitswitchparams_layout = record {
  pack = λ l.
      u16 l.chan_ident
      ++ (u16 l.cw_hard
          ++ (u16 l.ccw_hard ++ (u32 l.cw_soft ++ (u32 l.ccw_soft ++ u16 l.limit_mode))));
  unpack = λ bs. whole (
      (do
        chan_ident ← take_u16
        cw_hard ← take_u16
        ccw_hard ← take_u16
        cw_soft ← take_u32
        ccw_soft ← take_u32
        limit_mode ← take_u16
        λ rest. some (
          record {
            chan_ident = chan_ident;
            cw_hard = cw_hard;
            ccw_hard = ccw_hard;
            cw_soft = cw_soft;
            ccw_soft = ccw_soft;
            limit_mode = limit_mode;
          },
          rest,
        ))
        bs);
}

-- `poscounter_throwaway`
pub record PosCounter : Type 0 where
  pub chan_ident : ℕ
  pub position_counter_value : ℕ

unfoldable pub poscounter_layout : Layout PosCounter
poscounter_layout = record {
  pack = λ p. u16 p.chan_ident ++ u32 p.position_counter_value;
  unpack = λ bs. whole (
      (do
        chan_ident ← take_u16
        position_counter_value ← take_u32
        λ rest. some (
          record { chan_ident = chan_ident; position_counter_value = position_counter_value },
          rest,
        ))
        bs);
}
