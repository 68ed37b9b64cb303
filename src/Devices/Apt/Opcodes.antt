-- ===== src/Devices/Apt/Opcodes.antt =====
-- The opcodes of the protocol, `bsc203_opcodes` of devices/Thorlabs_APT/APT_defs.hh.
use foxtrot.Base.{ℕ}

pub data Opcode : Type 0 where
  mgmsg_mod_identify mgmsg_mod_set_chanenablestate mgmsg_mod_req_chanenablestate : Opcode
  mgmsg_mod_get_chanenablestate mgmsg_mod_start_updatemsgs mgmsg_mod_stop_updatemsgs : Opcode
  mgmsg_mod_req_hwinfo mgmsg_mod_get_hwinfo mgmsg_hw_no_flash_programming : Opcode
  mgmsg_rack_req_bayused mgmsg_rack_get_bayused mgmsg_rack_req_statusbits : Opcode
  mgmsg_rack_get_statusbits mgmsg_rack_set_digoutputs mgmsg_rack_req_digoutputs : Opcode
  mgmsg_rack_get_digoutputs mgmsg_mot_set_poscounter mgmsg_mot_req_poscounter : Opcode
  mgmsg_mot_get_poscounter mgmsg_mot_set_enccounter mgmsg_mot_req_enccounter : Opcode
  mgmsg_mot_get_enccounter mgmsg_mot_set_velparams mgmsg_mot_req_velparams : Opcode
  mgmsg_mot_get_velparams mgmsg_mot_set_jogparams mgmsg_mot_req_jogparams : Opcode
  mgmsg_mot_get_jogparams mgmsg_mot_req_adcinputs mgmsg_mot_get_adcinputs : Opcode
  mgmsg_mot_set_powerparams mgmsg_mot_req_powerparams mgmsg_mot_get_powerparams : Opcode
  mgmsg_mot_set_genmoveparams mgmsg_mot_req_genmoveparams mgmsg_mot_get_genmoveparams : Opcode
  mgmsg_mot_set_moverelparams mgmsg_mot_req_moverelparams mgmsg_mot_get_moverelparams : Opcode
  mgmsg_mot_set_moveabsparams mgmsg_mot_req_moveabsparams mgmsg_mot_get_moveabsparams : Opcode
  mgmsg_mot_set_homeparams mgmsg_mot_req_homeparams mgmsg_mot_get_homeparams : Opcode
  mgmsg_mot_set_limswitchparams mgmsg_mot_req_limswitchparams mgmsg_mot_get_limswitchparams : Opcode
  mgmsg_mot_move_home mgmsg_mot_move_homed mgmsg_mot_move_relative : Opcode
  mgmsg_mot_move_completed mgmsg_pzmot_move_completed mgmsg_mot_move_absolute : Opcode
  mgmsg_pzmot_move_absolute mgmsg_mot_move_jog mgmsg_pzmot_move_jog : Opcode
  mgmsg_mot_move_velocity mgmsg_mot_move_stop mgmsg_mot_move_stopped : Opcode
  mgmsg_mot_set_bowindex mgmsg_mot_req_bowindex mgmsg_mot_get_bowindex : Opcode
  mgmsg_mot_set_dcpidparams mgmsg_mot_req_dcpidparams mgmsg_mot_get_dcpidparams : Opcode
  mgmsg_mot_get_statusupdate mgmsg_mot_req_statusupdate mgmsg_mot_req_dcstatusupdate : Opcode
  mgmsg_mot_get_dcstatusupdate mgmsg_mot_ack_statusupdate mgmsg_mot_req_statusbits : Opcode
  mgmsg_mot_get_statusbits mgmsg_pzmot_set_params mgmsg_pzmot_req_params : Opcode
  mgmsg_pzmot_get_params mgmsg_hw_start_updatemsgs mgmsg_hw_stop_updatemsgs : Opcode
  mgmsg_pzmot_get_statusupdate mgmsg_mod_set_digoutputs mgmsg_mod_req_digoutputs : Opcode
  mgmsg_mod_get_digoutputs mgmsg_mot_set_pmdjoystickparams mgmsg_mot_suspend_endofmovemsgs : Opcode
  mgmsg_mot_resume_endofmovemsgs mgmsg_hw_richresponse mgmsg_hw_response : Opcode

abbrev pub opcode_code : Opcode → ℕ
opcode_code mgmsg_mod_identify = 0x0223
opcode_code mgmsg_mod_set_chanenablestate = 0x0210
opcode_code mgmsg_mod_req_chanenablestate = 0x0211
opcode_code mgmsg_mod_get_chanenablestate = 0x0212
opcode_code mgmsg_mod_start_updatemsgs = 0x0011
opcode_code mgmsg_mod_stop_updatemsgs = 0x0012
opcode_code mgmsg_mod_req_hwinfo = 0x0005
opcode_code mgmsg_mod_get_hwinfo = 0x0006
opcode_code mgmsg_hw_no_flash_programming = 0x0018
opcode_code mgmsg_rack_req_bayused = 0x0060
opcode_code mgmsg_rack_get_bayused = 0x0061
opcode_code mgmsg_rack_req_statusbits = 0x0226
opcode_code mgmsg_rack_get_statusbits = 0x0227
opcode_code mgmsg_rack_set_digoutputs = 0x0228
opcode_code mgmsg_rack_req_digoutputs = 0x0229
opcode_code mgmsg_rack_get_digoutputs = 0x0230
opcode_code mgmsg_mot_set_poscounter = 0x0410
opcode_code mgmsg_mot_req_poscounter = 0x0411
opcode_code mgmsg_mot_get_poscounter = 0x0412
opcode_code mgmsg_mot_set_enccounter = 0x0409
opcode_code mgmsg_mot_req_enccounter = 0x040A
opcode_code mgmsg_mot_get_enccounter = 0x040B
opcode_code mgmsg_mot_set_velparams = 0x0413
opcode_code mgmsg_mot_req_velparams = 0x0414
opcode_code mgmsg_mot_get_velparams = 0x0415
opcode_code mgmsg_mot_set_jogparams = 0x0416
opcode_code mgmsg_mot_req_jogparams = 0x0417
opcode_code mgmsg_mot_get_jogparams = 0x0418
opcode_code mgmsg_mot_req_adcinputs = 0x042B
opcode_code mgmsg_mot_get_adcinputs = 0x042C
opcode_code mgmsg_mot_set_powerparams = 0x0426
opcode_code mgmsg_mot_req_powerparams = 0x0427
opcode_code mgmsg_mot_get_powerparams = 0x0428
opcode_code mgmsg_mot_set_genmoveparams = 0x043A
opcode_code mgmsg_mot_req_genmoveparams = 0x043B
opcode_code mgmsg_mot_get_genmoveparams = 0x043C
opcode_code mgmsg_mot_set_moverelparams = 0x0445
opcode_code mgmsg_mot_req_moverelparams = 0x0446
opcode_code mgmsg_mot_get_moverelparams = 0x0447
opcode_code mgmsg_mot_set_moveabsparams = 0x0450
opcode_code mgmsg_mot_req_moveabsparams = 0x0451
opcode_code mgmsg_mot_get_moveabsparams = 0x0452
opcode_code mgmsg_mot_set_homeparams = 0x0440
opcode_code mgmsg_mot_req_homeparams = 0x0441
opcode_code mgmsg_mot_get_homeparams = 0x0442
opcode_code mgmsg_mot_set_limswitchparams = 0x0423
opcode_code mgmsg_mot_req_limswitchparams = 0x0424
opcode_code mgmsg_mot_get_limswitchparams = 0x0425
opcode_code mgmsg_mot_move_home = 0x0443
opcode_code mgmsg_mot_move_homed = 0x0444
opcode_code mgmsg_mot_move_relative = 0x0448
opcode_code mgmsg_mot_move_completed = 0x0464
opcode_code mgmsg_pzmot_move_completed = 0x08D6
opcode_code mgmsg_mot_move_absolute = 0x0453
opcode_code mgmsg_pzmot_move_absolute = 0x08D4
opcode_code mgmsg_mot_move_jog = 0x046A
opcode_code mgmsg_pzmot_move_jog = 0x8D9
opcode_code mgmsg_mot_move_velocity = 0x0457
opcode_code mgmsg_mot_move_stop = 0x0465
opcode_code mgmsg_mot_move_stopped = 0x0466
opcode_code mgmsg_mot_set_bowindex = 0x04F4
opcode_code mgmsg_mot_req_bowindex = 0x04F5
opcode_code mgmsg_mot_get_bowindex = 0x04F6
opcode_code mgmsg_mot_set_dcpidparams = 0x04A0
opcode_code mgmsg_mot_req_dcpidparams = 0x04A1
opcode_code mgmsg_mot_get_dcpidparams = 0x04A2
opcode_code mgmsg_mot_get_statusupdate = 0x0481
opcode_code mgmsg_mot_req_statusupdate = 0x0480
opcode_code mgmsg_mot_req_dcstatusupdate = 0x0490
opcode_code mgmsg_mot_get_dcstatusupdate = 0x0491
opcode_code mgmsg_mot_ack_statusupdate = 0x0492
opcode_code mgmsg_mot_req_statusbits = 0x0429
opcode_code mgmsg_mot_get_statusbits = 0x042A
opcode_code mgmsg_pzmot_set_params = 0x08C0
opcode_code mgmsg_pzmot_req_params = 0x08C1
opcode_code mgmsg_pzmot_get_params = 0x08C2
opcode_code mgmsg_hw_start_updatemsgs = 0x0011
opcode_code mgmsg_hw_stop_updatemsgs = 0x0012
opcode_code mgmsg_pzmot_get_statusupdate = 0x8E1
opcode_code mgmsg_mod_set_digoutputs = 0x0213
opcode_code mgmsg_mod_req_digoutputs = 0x0214
opcode_code mgmsg_mod_get_digoutputs = 0x0215
opcode_code mgmsg_mot_set_pmdjoystickparams = 0x04E6
opcode_code mgmsg_mot_suspend_endofmovemsgs = 0x046B
opcode_code mgmsg_mot_resume_endofmovemsgs = 0x046C
opcode_code mgmsg_hw_richresponse = 0x0081
opcode_code mgmsg_hw_response = 0x0080
