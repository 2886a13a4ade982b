-- ===== src/Cc1120/Registers.antt =====
-- The registers and the commands of the chip that the library uses (src/cc1120.h), the tables of
-- the channels and of the transmission powers, and the settings (src/cc1120.c).
use libtta.Base.{ℕ, List, [], ◌∷◌}

abbrev pub preamble_cfg1 : ℕ
preamble_cfg1 = 0x000D

abbrev pub wor_cfg0 : ℕ
wor_cfg0 = 0x0023

abbrev pub agc_cs_thr : ℕ
agc_cs_thr = 0x0018

abbrev pub agc_gain_adjust : ℕ
agc_gain_adjust = 0x0019

abbrev pub pa_cfg2 : ℕ
pa_cfg2 = 0x002B

abbrev pub pa_cfg1 : ℕ
pa_cfg1 = 0x002C

abbrev pub pa_cfg0 : ℕ
pa_cfg0 = 0x002D

abbrev pub freq2 : ℕ
freq2 = 0x2F0C

abbrev pub freq1 : ℕ
freq1 = 0x2F0D

abbrev pub freq0 : ℕ
freq0 = 0x2F0E

abbrev pub fs_cal2 : ℕ
fs_cal2 = 0x2F15

abbrev pub fs_chp : ℕ
fs_chp = 0x2F18

abbrev pub fs_vco4 : ℕ
fs_vco4 = 0x2F23

abbrev pub fs_vco2 : ℕ
fs_vco2 = 0x2F25

abbrev pub rssi1 : ℕ
rssi1 = 0x2F71

abbrev pub rssi0 : ℕ
rssi0 = 0x2F72

abbrev pub marcstate : ℕ
marcstate = 0x2F73

abbrev pub gpio_status : ℕ
gpio_status = 0x2F8C

abbrev pub num_rxbytes : ℕ
num_rxbytes = 0x2FD7

abbrev pub sres : ℕ
sres = 0x30

abbrev pub scal : ℕ
scal = 0x33

abbrev pub srx : ℕ
srx = 0x34

abbrev pub stx : ℕ
stx = 0x35

abbrev pub sidle : ℕ
sidle = 0x36

abbrev pub sfrx : ℕ
sfrx = 0x3A

abbrev pub sftx : ℕ
sftx = 0x3B

-- The state in which the radio is idle, as `MARCSTATE` gives it.
abbrev pub idle_state : ℕ
idle_state = 0x41

abbrev pub freq2_table : List ℕ
freq2_table =
    0x6A ∷ 0x6A ∷ 0x6A ∷ 0x6A ∷ 0x6A ∷ 0x6A ∷ 0x6A ∷ 0x6A ∷ 0x6A ∷ 0x6A ∷ 0x6A ∷ 0x6A ∷ 0x6A ∷ 0x6A
    ∷ 0x6A ∷ 0x6A ∷ 0x6A ∷ 0x6A ∷ 0x6A ∷ 0x6A ∷ 0x6A ∷ []

abbrev pub freq1_table : List ℕ
freq1_table =
    0x2C ∷ 0x2D ∷ 0x2E ∷ 0x2F ∷ 0x30 ∷ 0x30 ∷ 0x31 ∷ 0x32 ∷ 0x33 ∷ 0x34 ∷ 0x34 ∷ 0x35 ∷ 0x36 ∷ 0x37
    ∷ 0x38 ∷ 0x38 ∷ 0x39 ∷ 0x3A ∷ 0x3B ∷ 0x3C ∷ 0x3C ∷ []

abbrev pub freq0_table : List ℕ
freq0_table =
    0xCD ∷ 0x99 ∷ 0x66 ∷ 0x33 ∷ 0x00 ∷ 0xCD ∷ 0x99 ∷ 0x66 ∷ 0x33 ∷ 0x00 ∷ 0xCD ∷ 0x99 ∷ 0x66 ∷ 0x33
    ∷ 0x00 ∷ 0xCD ∷ 0x99 ∷ 0x66 ∷ 0x33 ∷ 0x00 ∷ 0xCD ∷ []

abbrev pub pa_cfg2_table : List ℕ
pa_cfg2_table =
    0x5D ∷ 0x5F ∷ 0x62 ∷ 0x64 ∷ 0x66 ∷ 0x69 ∷ 0x6B ∷ 0x6D ∷ 0x6F ∷ 0x72 ∷ 0x74 ∷ 0x77 ∷ 0x79 ∷ 0x7B
    ∷ 0x7D ∷ 0x7F ∷ []

abbrev pub pa_cfg1_table : List ℕ
pa_cfg1_table =
    0x56 ∷ 0x56 ∷ 0x56 ∷ 0x56 ∷ 0x56 ∷ 0x56 ∷ 0x56 ∷ 0x56 ∷ 0x56 ∷ 0x56 ∷ 0x56 ∷ 0x56 ∷ 0x56 ∷ 0x56
    ∷ 0x56 ∷ 0x56 ∷ []

abbrev pub pa_cfg0_table : List ℕ
pa_cfg0_table =
    0x3C ∷ 0x3C ∷ 0x44 ∷ 0x4C ∷ 0x4C ∷ 0x54 ∷ 0x54 ∷ 0x5C ∷ 0x5C ∷ 0x64 ∷ 0x6C ∷ 0x6C ∷ 0x74 ∷ 0x74
    ∷ 0x7C ∷ 0x7C ∷ []

-- The registers that `cc1120_writesetting` writes, with their values, in its order.
abbrev pub settings : List (ℕ × ℕ)
settings =
    (0x0000, 0x06)
    ∷ (0x0001, 0x06)
    ∷ (0x0002, 0xB0)
    ∷ (0x0003, 0x40)
    ∷ (0x0008, 0x0B)
    ∷ (0x000A, 0x06)
    ∷ (0x000B, 0x03)
    ∷ (0x000C, 0x1C)
    ∷ (0x000D, 0x18)
    ∷ (0x0010, 0xC6)
    ∷ (0x0011, 0x10)
    ∷ (0x0013, 0x05)
    ∷ (0x0017, 0x20)
    ∷ (0x0019, 0x9A)
    ∷ (0x0018, 0x9A)
    ∷ (0x0026, 0x10)
    ∷ (0x001C, 0xA9)
    ∷ (0x001E, 0x00)
    ∷ (0x0020, 0x03)
    ∷ (0x0021, 0x14)
    ∷ (0x0028, 0x20)
    ∷ (0x002B, 0x69)
    ∷ (0x002D, 0x7E)
    ∷ (0x002E, 0xFF)
    ∷ (0x2F00, 0x00)
    ∷ (0x2F01, 0x22)
    ∷ (0x2F0C, 0x6A)
    ∷ (0x2F0D, 0x2C)
    ∷ (0x2F0E, 0xCD)
    ∷ (0x2F12, 0x00)
    ∷ (0x2F13, 0x5F)
    ∷ (0x2F16, 0x40)
    ∷ (0x2F17, 0x0E)
    ∷ (0x2F19, 0x03)
    ∷ (0x2F1B, 0x33)
    ∷ (0x2F1D, 0x17)
    ∷ (0x2F1F, 0x50)
    ∷ (0x2F20, 0x6E)
    ∷ (0x2F21, 0x14)
    ∷ (0x2F22, 0xAC)
    ∷ (0x2F23, 0x0E)
    ∷ (0x2F26, 0x9C)
    ∷ (0x2F27, 0xB4)
    ∷ (0x2F32, 0x0E)
    ∷ (0x2F36, 0x03)
    ∷ (0x2F91, 0x08)
    ∷ []
