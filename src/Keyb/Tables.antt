-- ===== src/Keyb/Tables.antt =====
-- src/arch/x86_64/keyb.c: the tables `Make` and `Keys`, each key the characters before the NUL.
use rpv_platforms_evt_driven.Base.{ℕ, List, [], ◌∷◌}

-- The scan codes.
abbrev pub make : List ℕ
make =
    0xF0 ∷ 0x1C ∷ 0x32 ∷ 0x21 ∷ 0x23 ∷ 0x24 ∷ 0x2B ∷ 0x34 ∷ 0x33 ∷ 0x43 ∷ 0x3B ∷ 0x42 ∷ 0x4B ∷ 0x3A
    ∷ 0x31 ∷ 0x44 ∷ 0x4D ∷ 0x15 ∷ 0x2D ∷ 0x1B ∷ 0x2C ∷ 0x3C ∷ 0x2A ∷ 0x1D ∷ 0x22 ∷ 0x35 ∷ 0x1A
    ∷ 0x45 ∷ 0x16 ∷ 0x1E ∷ 0x26 ∷ 0x25 ∷ 0x2E ∷ 0x36 ∷ 0x3D ∷ 0x3E ∷ 0x46 ∷ 0x0E ∷ 0x4E ∷ 0x55
    ∷ 0x5D ∷ 0x66 ∷ 0x29 ∷ 0x0D ∷ 0x58 ∷ 0x12 ∷ 0x14 ∷ 0x11 ∷ 0x59 ∷ 0x5A ∷ 0x76 ∷ 0x05 ∷ 0x06
    ∷ 0x04 ∷ 0x0C ∷ 0x03 ∷ 0x0B ∷ 0x83 ∷ 0x0A ∷ 0x01 ∷ 0x09 ∷ 0x78 ∷ 0x07 ∷ 0x7E ∷ 0x54 ∷ 0x5B
    ∷ 0x77 ∷ 0x7C ∷ 0x71 ∷ 0x70 ∷ 0x69 ∷ 0x72 ∷ 0x7A ∷ 0x6B ∷ 0x73 ∷ 0x74 ∷ 0x6C ∷ 0x75 ∷ 0x7D
    ∷ 0x7B ∷ 0x79 ∷ 0x4C ∷ 0x52 ∷ 0x41 ∷ 0x49 ∷ 0x4A ∷ []

-- A key of one character.
abbrev ch : ℕ → List ℕ
ch c = c ∷ []

-- The keys in the order of the scan codes, then all but the first again with shift.
abbrev pub keys : List (List ℕ)
keys =
    (b'b' ∷ b'r' ∷ b'k' ∷ [])
    ∷ (ch b'a')
    ∷ (ch b'b')
    ∷ (ch b'c')
    ∷ (ch b'd')
    ∷ (ch b'e')
    ∷ (ch b'f')
    ∷ (ch b'g')
    ∷ (ch b'h')
    ∷ (ch b'i')
    ∷ (ch b'j')
    ∷ (ch b'k')
    ∷ (ch b'l')
    ∷ (ch b'm')
    ∷ (ch b'n')
    ∷ (ch b'o')
    ∷ (ch b'p')
    ∷ (ch b'q')
    ∷ (ch b'r')
    ∷ (ch b's')
    ∷ (ch b't')
    ∷ (ch b'u')
    ∷ (ch b'v')
    ∷ (ch b'w')
    ∷ (ch b'x')
    ∷ (ch b'y')
    ∷ (ch b'z')
    ∷ (ch b'0')
    ∷ (ch b'1')
    ∷ (ch b'2')
    ∷ (ch b'3')
    ∷ (ch b'4')
    ∷ (ch b'5')
    ∷ (ch b'6')
    ∷ (ch b'7')
    ∷ (ch b'8')
    ∷ (ch b'9')
    ∷ (ch b'`')
    ∷ (ch b'-')
    ∷ (ch b'=')
    ∷ (ch 0x5c)
    ∷ (ch 0x08)
    ∷ (ch b' ')
    ∷ (ch 0x09)
    ∷ (b'C' ∷ b'A' ∷ b'P' ∷ b'S' ∷ [])
    ∷ (b'L' ∷ b'S' ∷ b'H' ∷ b'F' ∷ b'T' ∷ [])
    ∷ (b'L' ∷ b'C' ∷ b'T' ∷ b'R' ∷ b'L' ∷ [])
    ∷ (b'L' ∷ b'A' ∷ b'L' ∷ b'T' ∷ [])
    ∷ (b'R' ∷ b'S' ∷ b'H' ∷ b'F' ∷ b'T' ∷ [])
    ∷ (ch 0x0a)
    ∷ (b'E' ∷ b'S' ∷ b'C' ∷ [])
    ∷ (b'F' ∷ b'1' ∷ [])
    ∷ (b'F' ∷ b'2' ∷ [])
    ∷ (b'F' ∷ b'3' ∷ [])
    ∷ (b'F' ∷ b'4' ∷ [])
    ∷ (b'F' ∷ b'5' ∷ [])
    ∷ (b'F' ∷ b'6' ∷ [])
    ∷ (b'F' ∷ b'7' ∷ [])
    ∷ (b'F' ∷ b'8' ∷ [])
    ∷ (b'F' ∷ b'9' ∷ [])
    ∷ (b'F' ∷ b'1' ∷ b'0' ∷ [])
    ∷ (b'F' ∷ b'1' ∷ b'1' ∷ [])
    ∷ (b'F' ∷ b'1' ∷ b'2' ∷ [])
    ∷ (b'S' ∷ b'C' ∷ b'R' ∷ b'O' ∷ b'L' ∷ b'L' ∷ [])
    ∷ (ch b'[')
    ∷ (ch b']')
    ∷ (b'N' ∷ b'U' ∷ b'M' ∷ [])
    ∷ (b'K' ∷ b'P' ∷ b'*' ∷ [])
    ∷ (b'K' ∷ b'P' ∷ b'.' ∷ [])
    ∷ (b'K' ∷ b'P' ∷ b'0' ∷ [])
    ∷ (b'K' ∷ b'P' ∷ b'1' ∷ [])
    ∷ (b'K' ∷ b'P' ∷ b'2' ∷ [])
    ∷ (b'K' ∷ b'P' ∷ b'3' ∷ [])
    ∷ (b'K' ∷ b'P' ∷ b'4' ∷ [])
    ∷ (b'K' ∷ b'P' ∷ b'5' ∷ [])
    ∷ (b'K' ∷ b'P' ∷ b'6' ∷ [])
    ∷ (b'K' ∷ b'P' ∷ b'7' ∷ [])
    ∷ (b'K' ∷ b'P' ∷ b'8' ∷ [])
    ∷ (b'K' ∷ b'P' ∷ b'9' ∷ [])
    ∷ (b'K' ∷ b'P' ∷ b'-' ∷ [])
    ∷ (b'K' ∷ b'P' ∷ b'+' ∷ [])
    ∷ (ch b';')
    ∷ (ch 0x27)
    ∷ (ch b',')
    ∷ (ch b'.')
    ∷ (ch b'/')
    ∷ (ch b'A')
    ∷ (ch b'B')
    ∷ (ch b'C')
    ∷ (ch b'D')
    ∷ (ch b'E')
    ∷ (ch b'F')
    ∷ (ch b'G')
    ∷ (ch b'H')
    ∷ (ch b'I')
    ∷ (ch b'J')
    ∷ (ch b'K')
    ∷ (ch b'L')
    ∷ (ch b'M')
    ∷ (ch b'N')
    ∷ (ch b'O')
    ∷ (ch b'P')
    ∷ (ch b'Q')
    ∷ (ch b'R')
    ∷ (ch b'S')
    ∷ (ch b'T')
    ∷ (ch b'U')
    ∷ (ch b'V')
    ∷ (ch b'W')
    ∷ (ch b'X')
    ∷ (ch b'Y')
    ∷ (ch b'Z')
    ∷ (ch b'0')
    ∷ (ch b'1')
    ∷ (ch b'2')
    ∷ (ch b'3')
    ∷ (ch b'4')
    ∷ (ch b'5')
    ∷ (ch b'6')
    ∷ (ch b'7')
    ∷ (ch b'8')
    ∷ (ch b'9')
    ∷ (ch b'~')
    ∷ (ch b'_')
    ∷ (ch b'+')
    ∷ (ch b'|')
    ∷ (ch 0x08)
    ∷ (ch b' ')
    ∷ (ch 0x09)
    ∷ (b'C' ∷ b'A' ∷ b'P' ∷ b'S' ∷ [])
    ∷ (b'L' ∷ b'S' ∷ b'H' ∷ b'F' ∷ b'T' ∷ [])
    ∷ (b'L' ∷ b'C' ∷ b'T' ∷ b'R' ∷ b'L' ∷ [])
    ∷ (b'L' ∷ b'A' ∷ b'L' ∷ b'T' ∷ [])
    ∷ (b'R' ∷ b'S' ∷ b'H' ∷ b'F' ∷ b'T' ∷ [])
    ∷ (ch 0x0a)
    ∷ (b'E' ∷ b'S' ∷ b'C' ∷ [])
    ∷ (b'F' ∷ b'1' ∷ [])
    ∷ (b'F' ∷ b'2' ∷ [])
    ∷ (b'F' ∷ b'3' ∷ [])
    ∷ (b'F' ∷ b'4' ∷ [])
    ∷ (b'F' ∷ b'5' ∷ [])
    ∷ (b'F' ∷ b'6' ∷ [])
    ∷ (b'F' ∷ b'7' ∷ [])
    ∷ (b'F' ∷ b'8' ∷ [])
    ∷ (b'F' ∷ b'9' ∷ [])
    ∷ (b'F' ∷ b'1' ∷ b'0' ∷ [])
    ∷ (b'F' ∷ b'1' ∷ b'1' ∷ [])
    ∷ (b'F' ∷ b'1' ∷ b'2' ∷ [])
    ∷ (b'S' ∷ b'C' ∷ b'R' ∷ b'O' ∷ b'L' ∷ b'L' ∷ [])
    ∷ (ch b'[')
    ∷ (ch b']')
    ∷ (b'N' ∷ b'U' ∷ b'M' ∷ [])
    ∷ (b'K' ∷ b'P' ∷ b'*' ∷ [])
    ∷ (b'K' ∷ b'P' ∷ b'.' ∷ [])
    ∷ (b'K' ∷ b'P' ∷ b'0' ∷ [])
    ∷ (b'K' ∷ b'P' ∷ b'1' ∷ [])
    ∷ (b'K' ∷ b'P' ∷ b'2' ∷ [])
    ∷ (b'K' ∷ b'P' ∷ b'3' ∷ [])
    ∷ (b'K' ∷ b'P' ∷ b'4' ∷ [])
    ∷ (b'K' ∷ b'P' ∷ b'5' ∷ [])
    ∷ (b'K' ∷ b'P' ∷ b'6' ∷ [])
    ∷ (b'K' ∷ b'P' ∷ b'7' ∷ [])
    ∷ (b'K' ∷ b'P' ∷ b'8' ∷ [])
    ∷ (b'K' ∷ b'P' ∷ b'9' ∷ [])
    ∷ (b'K' ∷ b'P' ∷ b'-' ∷ [])
    ∷ (b'K' ∷ b'P' ∷ b'+' ∷ [])
    ∷ (ch b':')
    ∷ (ch 0x22)
    ∷ (ch b'<')
    ∷ (ch b'>')
    ∷ (ch b'?')
    ∷ []
