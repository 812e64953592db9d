-- ===== src/Examples/Firmware.antt =====
-- A small firmware that the audit accepts. Its hash is the first four bytes of the payload, and its
-- decoder returns an ARM64 header of 64 bytes.
use edgepi_e87n.Base.{true, [], ◌∷◌, some, Bytes, take}
use edgepi_e87n.Fit.{Codecs}

abbrev pub tree : Bytes
tree =
    208 ∷ 13 ∷ 254 ∷ 237 ∷ 0 ∷ 0 ∷ 2 ∷ 59 ∷ 0 ∷ 0 ∷ 0 ∷ 56 ∷ 0 ∷ 0 ∷ 2 ∷ 28 ∷ 0 ∷ 0 ∷ 0 ∷ 40 ∷ 0 ∷ 0
    ∷ 0 ∷ 17 ∷ 0 ∷ 0 ∷ 0 ∷ 16 ∷ 0 ∷ 0 ∷ 0 ∷ 0 ∷ 0 ∷ 0 ∷ 0 ∷ 31 ∷ 0 ∷ 0 ∷ 1 ∷ 228 ∷ 0 ∷ 0 ∷ 0 ∷ 0 ∷ 0
    ∷ 0 ∷ 0 ∷ 0 ∷ 0 ∷ 0 ∷ 0 ∷ 0 ∷ 0 ∷ 0 ∷ 0 ∷ 0 ∷ 0 ∷ 0 ∷ 0 ∷ 1 ∷ 0 ∷ 0 ∷ 0 ∷ 0 ∷ 0 ∷ 0 ∷ 0 ∷ 3 ∷ 0
    ∷ 0 ∷ 0 ∷ 12 ∷ 0 ∷ 0 ∷ 0 ∷ 0 ∷ 101 ∷ 100 ∷ 103 ∷ 101 ∷ 112 ∷ 105 ∷ 44 ∷ 101 ∷ 56 ∷ 55 ∷ 110 ∷ 0
    ∷ 0 ∷ 0 ∷ 0 ∷ 1 ∷ 109 ∷ 101 ∷ 109 ∷ 111 ∷ 114 ∷ 121 ∷ 0 ∷ 0 ∷ 0 ∷ 0 ∷ 0 ∷ 3 ∷ 0 ∷ 0 ∷ 0 ∷ 16 ∷ 0
    ∷ 0 ∷ 0 ∷ 11 ∷ 0 ∷ 0 ∷ 0 ∷ 0 ∷ 64 ∷ 0 ∷ 0 ∷ 0 ∷ 0 ∷ 0 ∷ 0 ∷ 0 ∷ 64 ∷ 0 ∷ 0 ∷ 0 ∷ 0 ∷ 0 ∷ 0 ∷ 2
    ∷ 0 ∷ 0 ∷ 0 ∷ 1 ∷ 99 ∷ 104 ∷ 111 ∷ 115 ∷ 101 ∷ 110 ∷ 0 ∷ 0 ∷ 0 ∷ 0 ∷ 0 ∷ 3 ∷ 0 ∷ 0 ∷ 0 ∷ 155 ∷ 0
    ∷ 0 ∷ 0 ∷ 15 ∷ 99 ∷ 111 ∷ 110 ∷ 115 ∷ 111 ∷ 108 ∷ 101 ∷ 61 ∷ 116 ∷ 116 ∷ 121 ∷ 83 ∷ 48 ∷ 44 ∷ 49
    ∷ 49 ∷ 53 ∷ 50 ∷ 48 ∷ 48 ∷ 110 ∷ 56 ∷ 32 ∷ 101 ∷ 97 ∷ 114 ∷ 108 ∷ 121 ∷ 99 ∷ 111 ∷ 110 ∷ 61
    ∷ 117 ∷ 97 ∷ 114 ∷ 116 ∷ 56 ∷ 50 ∷ 53 ∷ 48 ∷ 44 ∷ 109 ∷ 109 ∷ 105 ∷ 111 ∷ 51 ∷ 50 ∷ 44 ∷ 48
    ∷ 120 ∷ 49 ∷ 49 ∷ 48 ∷ 48 ∷ 48 ∷ 48 ∷ 48 ∷ 48 ∷ 32 ∷ 114 ∷ 111 ∷ 111 ∷ 116 ∷ 61 ∷ 85 ∷ 85 ∷ 73
    ∷ 68 ∷ 61 ∷ 49 ∷ 50 ∷ 51 ∷ 52 ∷ 32 ∷ 114 ∷ 111 ∷ 111 ∷ 116 ∷ 119 ∷ 97 ∷ 105 ∷ 116 ∷ 32 ∷ 114
    ∷ 111 ∷ 111 ∷ 116 ∷ 102 ∷ 115 ∷ 116 ∷ 121 ∷ 112 ∷ 101 ∷ 61 ∷ 101 ∷ 120 ∷ 116 ∷ 52 ∷ 32 ∷ 114
    ∷ 119 ∷ 32 ∷ 102 ∷ 115 ∷ 99 ∷ 107 ∷ 46 ∷ 114 ∷ 101 ∷ 112 ∷ 97 ∷ 105 ∷ 114 ∷ 61 ∷ 121 ∷ 101 ∷ 115
    ∷ 32 ∷ 110 ∷ 101 ∷ 116 ∷ 46 ∷ 105 ∷ 102 ∷ 110 ∷ 97 ∷ 109 ∷ 101 ∷ 115 ∷ 61 ∷ 48 ∷ 32 ∷ 99 ∷ 111
    ∷ 110 ∷ 115 ∷ 111 ∷ 108 ∷ 101 ∷ 98 ∷ 108 ∷ 97 ∷ 110 ∷ 107 ∷ 61 ∷ 48 ∷ 32 ∷ 112 ∷ 97 ∷ 110 ∷ 105
    ∷ 99 ∷ 61 ∷ 48 ∷ 0 ∷ 0 ∷ 0 ∷ 0 ∷ 0 ∷ 2 ∷ 0 ∷ 0 ∷ 0 ∷ 1 ∷ 114 ∷ 101 ∷ 115 ∷ 101 ∷ 114 ∷ 118 ∷ 101
    ∷ 100 ∷ 45 ∷ 109 ∷ 101 ∷ 109 ∷ 111 ∷ 114 ∷ 121 ∷ 0 ∷ 0 ∷ 0 ∷ 0 ∷ 1 ∷ 119 ∷ 109 ∷ 99 ∷ 112 ∷ 117
    ∷ 45 ∷ 114 ∷ 101 ∷ 115 ∷ 101 ∷ 114 ∷ 118 ∷ 101 ∷ 100 ∷ 64 ∷ 53 ∷ 48 ∷ 48 ∷ 48 ∷ 48 ∷ 48 ∷ 48
    ∷ 48 ∷ 0 ∷ 0 ∷ 0 ∷ 0 ∷ 3 ∷ 0 ∷ 0 ∷ 0 ∷ 16 ∷ 0 ∷ 0 ∷ 0 ∷ 11 ∷ 0 ∷ 0 ∷ 0 ∷ 0 ∷ 80 ∷ 0 ∷ 0 ∷ 0 ∷ 0
    ∷ 0 ∷ 0 ∷ 0 ∷ 0 ∷ 16 ∷ 0 ∷ 0 ∷ 0 ∷ 0 ∷ 0 ∷ 3 ∷ 0 ∷ 0 ∷ 0 ∷ 0 ∷ 0 ∷ 0 ∷ 0 ∷ 24 ∷ 0 ∷ 0 ∷ 0 ∷ 2
    ∷ 0 ∷ 0 ∷ 0 ∷ 1 ∷ 114 ∷ 97 ∷ 109 ∷ 111 ∷ 111 ∷ 112 ∷ 115 ∷ 64 ∷ 55 ∷ 102 ∷ 102 ∷ 55 ∷ 48 ∷ 48
    ∷ 48 ∷ 48 ∷ 0 ∷ 0 ∷ 0 ∷ 0 ∷ 0 ∷ 0 ∷ 0 ∷ 3 ∷ 0 ∷ 0 ∷ 0 ∷ 16 ∷ 0 ∷ 0 ∷ 0 ∷ 11 ∷ 0 ∷ 0 ∷ 0 ∷ 0
    ∷ 127 ∷ 247 ∷ 0 ∷ 0 ∷ 0 ∷ 0 ∷ 0 ∷ 0 ∷ 0 ∷ 1 ∷ 0 ∷ 0 ∷ 0 ∷ 0 ∷ 0 ∷ 2 ∷ 0 ∷ 0 ∷ 0 ∷ 1 ∷ 115 ∷ 101
    ∷ 99 ∷ 109 ∷ 111 ∷ 110 ∷ 64 ∷ 55 ∷ 102 ∷ 102 ∷ 56 ∷ 48 ∷ 48 ∷ 48 ∷ 48 ∷ 0 ∷ 0 ∷ 0 ∷ 0 ∷ 3 ∷ 0
    ∷ 0 ∷ 0 ∷ 16 ∷ 0 ∷ 0 ∷ 0 ∷ 11 ∷ 0 ∷ 0 ∷ 0 ∷ 0 ∷ 127 ∷ 248 ∷ 0 ∷ 0 ∷ 0 ∷ 0 ∷ 0 ∷ 0 ∷ 0 ∷ 8 ∷ 0
    ∷ 0 ∷ 0 ∷ 0 ∷ 0 ∷ 3 ∷ 0 ∷ 0 ∷ 0 ∷ 0 ∷ 0 ∷ 0 ∷ 0 ∷ 24 ∷ 0 ∷ 0 ∷ 0 ∷ 2 ∷ 0 ∷ 0 ∷ 0 ∷ 2 ∷ 0 ∷ 0 ∷ 0
    ∷ 2 ∷ 0 ∷ 0 ∷ 0 ∷ 9 ∷ 99 ∷ 111 ∷ 109 ∷ 112 ∷ 97 ∷ 116 ∷ 105 ∷ 98 ∷ 108 ∷ 101 ∷ 0 ∷ 114 ∷ 101
    ∷ 103 ∷ 0 ∷ 98 ∷ 111 ∷ 111 ∷ 116 ∷ 97 ∷ 114 ∷ 103 ∷ 115 ∷ 0 ∷ 110 ∷ 111 ∷ 45 ∷ 109 ∷ 97 ∷ 112
    ∷ 0 ∷ []

abbrev pub packed : Bytes
packed = 109 ∷ 0 ∷ 0 ∷ 128 ∷ 0 ∷ 64 ∷ 0 ∷ 0 ∷ 0 ∷ 0 ∷ 0 ∷ 0 ∷ 0 ∷ 170 ∷ []

abbrev pub image : Bytes
image =
    0 ∷ 0 ∷ 0 ∷ 0 ∷ 0 ∷ 0 ∷ 0 ∷ 0 ∷ 0 ∷ 0 ∷ 0 ∷ 0 ∷ 0 ∷ 0 ∷ 0 ∷ 0 ∷ 0 ∷ 16 ∷ 0 ∷ 0 ∷ 0 ∷ 0 ∷ 0 ∷ 0
    ∷ 0 ∷ 0 ∷ 0 ∷ 0 ∷ 0 ∷ 0 ∷ 0 ∷ 0 ∷ 0 ∷ 0 ∷ 0 ∷ 0 ∷ 0 ∷ 0 ∷ 0 ∷ 0 ∷ 0 ∷ 0 ∷ 0 ∷ 0 ∷ 0 ∷ 0 ∷ 0 ∷ 0
    ∷ 0 ∷ 0 ∷ 0 ∷ 0 ∷ 0 ∷ 0 ∷ 0 ∷ 0 ∷ 65 ∷ 82 ∷ 77 ∷ 100 ∷ 0 ∷ 0 ∷ 0 ∷ 0 ∷ []

abbrev pub firmware : Bytes
firmware =
    208 ∷ 13 ∷ 254 ∷ 237 ∷ 0 ∷ 0 ∷ 5 ∷ 143 ∷ 0 ∷ 0 ∷ 0 ∷ 56 ∷ 0 ∷ 0 ∷ 5 ∷ 64 ∷ 0 ∷ 0 ∷ 0 ∷ 40 ∷ 0
    ∷ 0 ∷ 0 ∷ 17 ∷ 0 ∷ 0 ∷ 0 ∷ 16 ∷ 0 ∷ 0 ∷ 0 ∷ 0 ∷ 0 ∷ 0 ∷ 0 ∷ 79 ∷ 0 ∷ 0 ∷ 5 ∷ 8 ∷ 0 ∷ 0 ∷ 0 ∷ 0
    ∷ 0 ∷ 0 ∷ 0 ∷ 0 ∷ 0 ∷ 0 ∷ 0 ∷ 0 ∷ 0 ∷ 0 ∷ 0 ∷ 0 ∷ 0 ∷ 0 ∷ 0 ∷ 1 ∷ 0 ∷ 0 ∷ 0 ∷ 0 ∷ 0 ∷ 0 ∷ 0 ∷ 1
    ∷ 105 ∷ 109 ∷ 97 ∷ 103 ∷ 101 ∷ 115 ∷ 0 ∷ 0 ∷ 0 ∷ 0 ∷ 0 ∷ 1 ∷ 107 ∷ 101 ∷ 114 ∷ 110 ∷ 101 ∷ 108
    ∷ 45 ∷ 49 ∷ 0 ∷ 0 ∷ 0 ∷ 0 ∷ 0 ∷ 0 ∷ 0 ∷ 3 ∷ 0 ∷ 0 ∷ 0 ∷ 7 ∷ 0 ∷ 0 ∷ 0 ∷ 0 ∷ 107 ∷ 101 ∷ 114
    ∷ 110 ∷ 101 ∷ 108 ∷ 0 ∷ 0 ∷ 0 ∷ 0 ∷ 0 ∷ 3 ∷ 0 ∷ 0 ∷ 0 ∷ 6 ∷ 0 ∷ 0 ∷ 0 ∷ 5 ∷ 97 ∷ 114 ∷ 109 ∷ 54
    ∷ 52 ∷ 0 ∷ 0 ∷ 0 ∷ 0 ∷ 0 ∷ 0 ∷ 3 ∷ 0 ∷ 0 ∷ 0 ∷ 5 ∷ 0 ∷ 0 ∷ 0 ∷ 10 ∷ 108 ∷ 122 ∷ 109 ∷ 97 ∷ 0 ∷ 0
    ∷ 0 ∷ 0 ∷ 0 ∷ 0 ∷ 0 ∷ 3 ∷ 0 ∷ 0 ∷ 0 ∷ 4 ∷ 0 ∷ 0 ∷ 0 ∷ 22 ∷ 64 ∷ 0 ∷ 0 ∷ 0 ∷ 0 ∷ 0 ∷ 0 ∷ 3 ∷ 0
    ∷ 0 ∷ 0 ∷ 6 ∷ 0 ∷ 0 ∷ 0 ∷ 27 ∷ 108 ∷ 105 ∷ 110 ∷ 117 ∷ 120 ∷ 0 ∷ 0 ∷ 0 ∷ 0 ∷ 0 ∷ 0 ∷ 3 ∷ 0 ∷ 0
    ∷ 0 ∷ 4 ∷ 0 ∷ 0 ∷ 0 ∷ 30 ∷ 64 ∷ 0 ∷ 0 ∷ 0 ∷ 0 ∷ 0 ∷ 0 ∷ 3 ∷ 0 ∷ 0 ∷ 0 ∷ 14 ∷ 0 ∷ 0 ∷ 0 ∷ 36
    ∷ 109 ∷ 0 ∷ 0 ∷ 128 ∷ 0 ∷ 64 ∷ 0 ∷ 0 ∷ 0 ∷ 0 ∷ 0 ∷ 0 ∷ 0 ∷ 170 ∷ 0 ∷ 0 ∷ 0 ∷ 0 ∷ 0 ∷ 1 ∷ 104
    ∷ 97 ∷ 115 ∷ 104 ∷ 45 ∷ 49 ∷ 0 ∷ 0 ∷ 0 ∷ 0 ∷ 0 ∷ 3 ∷ 0 ∷ 0 ∷ 0 ∷ 7 ∷ 0 ∷ 0 ∷ 0 ∷ 41 ∷ 115 ∷ 104
    ∷ 97 ∷ 50 ∷ 53 ∷ 54 ∷ 0 ∷ 0 ∷ 0 ∷ 0 ∷ 0 ∷ 3 ∷ 0 ∷ 0 ∷ 0 ∷ 4 ∷ 0 ∷ 0 ∷ 0 ∷ 46 ∷ 109 ∷ 0 ∷ 0 ∷ 128
    ∷ 0 ∷ 0 ∷ 0 ∷ 2 ∷ 0 ∷ 0 ∷ 0 ∷ 2 ∷ 0 ∷ 0 ∷ 0 ∷ 1 ∷ 114 ∷ 97 ∷ 109 ∷ 100 ∷ 105 ∷ 115 ∷ 107 ∷ 45
    ∷ 49 ∷ 0 ∷ 0 ∷ 0 ∷ 0 ∷ 0 ∷ 0 ∷ 3 ∷ 0 ∷ 0 ∷ 0 ∷ 8 ∷ 0 ∷ 0 ∷ 0 ∷ 0 ∷ 114 ∷ 97 ∷ 109 ∷ 100 ∷ 105
    ∷ 115 ∷ 107 ∷ 0 ∷ 0 ∷ 0 ∷ 0 ∷ 3 ∷ 0 ∷ 0 ∷ 0 ∷ 6 ∷ 0 ∷ 0 ∷ 0 ∷ 5 ∷ 97 ∷ 114 ∷ 109 ∷ 54 ∷ 52 ∷ 0
    ∷ 0 ∷ 0 ∷ 0 ∷ 0 ∷ 0 ∷ 3 ∷ 0 ∷ 0 ∷ 0 ∷ 5 ∷ 0 ∷ 0 ∷ 0 ∷ 10 ∷ 110 ∷ 111 ∷ 110 ∷ 101 ∷ 0 ∷ 0 ∷ 0 ∷ 0
    ∷ 0 ∷ 0 ∷ 0 ∷ 3 ∷ 0 ∷ 0 ∷ 0 ∷ 4 ∷ 0 ∷ 0 ∷ 0 ∷ 22 ∷ 68 ∷ 0 ∷ 0 ∷ 0 ∷ 0 ∷ 0 ∷ 0 ∷ 3 ∷ 0 ∷ 0 ∷ 0
    ∷ 6 ∷ 0 ∷ 0 ∷ 0 ∷ 27 ∷ 108 ∷ 105 ∷ 110 ∷ 117 ∷ 120 ∷ 0 ∷ 0 ∷ 0 ∷ 0 ∷ 0 ∷ 0 ∷ 3 ∷ 0 ∷ 0 ∷ 0 ∷ 6
    ∷ 0 ∷ 0 ∷ 0 ∷ 36 ∷ 48 ∷ 55 ∷ 48 ∷ 55 ∷ 48 ∷ 49 ∷ 0 ∷ 0 ∷ 0 ∷ 0 ∷ 0 ∷ 1 ∷ 104 ∷ 97 ∷ 115 ∷ 104
    ∷ 45 ∷ 49 ∷ 0 ∷ 0 ∷ 0 ∷ 0 ∷ 0 ∷ 3 ∷ 0 ∷ 0 ∷ 0 ∷ 7 ∷ 0 ∷ 0 ∷ 0 ∷ 41 ∷ 115 ∷ 104 ∷ 97 ∷ 50 ∷ 53
    ∷ 54 ∷ 0 ∷ 0 ∷ 0 ∷ 0 ∷ 0 ∷ 3 ∷ 0 ∷ 0 ∷ 0 ∷ 4 ∷ 0 ∷ 0 ∷ 0 ∷ 46 ∷ 48 ∷ 55 ∷ 48 ∷ 55 ∷ 0 ∷ 0 ∷ 0
    ∷ 2 ∷ 0 ∷ 0 ∷ 0 ∷ 2 ∷ 0 ∷ 0 ∷ 0 ∷ 1 ∷ 102 ∷ 100 ∷ 116 ∷ 45 ∷ 49 ∷ 0 ∷ 0 ∷ 0 ∷ 0 ∷ 0 ∷ 0 ∷ 3 ∷ 0
    ∷ 0 ∷ 0 ∷ 8 ∷ 0 ∷ 0 ∷ 0 ∷ 0 ∷ 102 ∷ 108 ∷ 97 ∷ 116 ∷ 95 ∷ 100 ∷ 116 ∷ 0 ∷ 0 ∷ 0 ∷ 0 ∷ 3 ∷ 0 ∷ 0
    ∷ 0 ∷ 6 ∷ 0 ∷ 0 ∷ 0 ∷ 5 ∷ 97 ∷ 114 ∷ 109 ∷ 54 ∷ 52 ∷ 0 ∷ 0 ∷ 0 ∷ 0 ∷ 0 ∷ 0 ∷ 3 ∷ 0 ∷ 0 ∷ 0 ∷ 5
    ∷ 0 ∷ 0 ∷ 0 ∷ 10 ∷ 110 ∷ 111 ∷ 110 ∷ 101 ∷ 0 ∷ 0 ∷ 0 ∷ 0 ∷ 0 ∷ 0 ∷ 0 ∷ 3 ∷ 0 ∷ 0 ∷ 0 ∷ 4 ∷ 0 ∷ 0
    ∷ 0 ∷ 22 ∷ 69 ∷ 224 ∷ 0 ∷ 0 ∷ 0 ∷ 0 ∷ 0 ∷ 3 ∷ 0 ∷ 0 ∷ 2 ∷ 59 ∷ 0 ∷ 0 ∷ 0 ∷ 36 ∷ 208 ∷ 13 ∷ 254
    ∷ 237 ∷ 0 ∷ 0 ∷ 2 ∷ 59 ∷ 0 ∷ 0 ∷ 0 ∷ 56 ∷ 0 ∷ 0 ∷ 2 ∷ 28 ∷ 0 ∷ 0 ∷ 0 ∷ 40 ∷ 0 ∷ 0 ∷ 0 ∷ 17 ∷ 0
    ∷ 0 ∷ 0 ∷ 16 ∷ 0 ∷ 0 ∷ 0 ∷ 0 ∷ 0 ∷ 0 ∷ 0 ∷ 31 ∷ 0 ∷ 0 ∷ 1 ∷ 228 ∷ 0 ∷ 0 ∷ 0 ∷ 0 ∷ 0 ∷ 0 ∷ 0 ∷ 0
    ∷ 0 ∷ 0 ∷ 0 ∷ 0 ∷ 0 ∷ 0 ∷ 0 ∷ 0 ∷ 0 ∷ 0 ∷ 0 ∷ 1 ∷ 0 ∷ 0 ∷ 0 ∷ 0 ∷ 0 ∷ 0 ∷ 0 ∷ 3 ∷ 0 ∷ 0 ∷ 0 ∷ 12
    ∷ 0 ∷ 0 ∷ 0 ∷ 0 ∷ 101 ∷ 100 ∷ 103 ∷ 101 ∷ 112 ∷ 105 ∷ 44 ∷ 101 ∷ 56 ∷ 55 ∷ 110 ∷ 0 ∷ 0 ∷ 0 ∷ 0
    ∷ 1 ∷ 109 ∷ 101 ∷ 109 ∷ 111 ∷ 114 ∷ 121 ∷ 0 ∷ 0 ∷ 0 ∷ 0 ∷ 0 ∷ 3 ∷ 0 ∷ 0 ∷ 0 ∷ 16 ∷ 0 ∷ 0 ∷ 0
    ∷ 11 ∷ 0 ∷ 0 ∷ 0 ∷ 0 ∷ 64 ∷ 0 ∷ 0 ∷ 0 ∷ 0 ∷ 0 ∷ 0 ∷ 0 ∷ 64 ∷ 0 ∷ 0 ∷ 0 ∷ 0 ∷ 0 ∷ 0 ∷ 2 ∷ 0 ∷ 0
    ∷ 0 ∷ 1 ∷ 99 ∷ 104 ∷ 111 ∷ 115 ∷ 101 ∷ 110 ∷ 0 ∷ 0 ∷ 0 ∷ 0 ∷ 0 ∷ 3 ∷ 0 ∷ 0 ∷ 0 ∷ 155 ∷ 0 ∷ 0 ∷ 0
    ∷ 15 ∷ 99 ∷ 111 ∷ 110 ∷ 115 ∷ 111 ∷ 108 ∷ 101 ∷ 61 ∷ 116 ∷ 116 ∷ 121 ∷ 83 ∷ 48 ∷ 44 ∷ 49 ∷ 49
    ∷ 53 ∷ 50 ∷ 48 ∷ 48 ∷ 110 ∷ 56 ∷ 32 ∷ 101 ∷ 97 ∷ 114 ∷ 108 ∷ 121 ∷ 99 ∷ 111 ∷ 110 ∷ 61 ∷ 117
    ∷ 97 ∷ 114 ∷ 116 ∷ 56 ∷ 50 ∷ 53 ∷ 48 ∷ 44 ∷ 109 ∷ 109 ∷ 105 ∷ 111 ∷ 51 ∷ 50 ∷ 44 ∷ 48 ∷ 120 ∷ 49
    ∷ 49 ∷ 48 ∷ 48 ∷ 48 ∷ 48 ∷ 48 ∷ 48 ∷ 32 ∷ 114 ∷ 111 ∷ 111 ∷ 116 ∷ 61 ∷ 85 ∷ 85 ∷ 73 ∷ 68 ∷ 61
    ∷ 49 ∷ 50 ∷ 51 ∷ 52 ∷ 32 ∷ 114 ∷ 111 ∷ 111 ∷ 116 ∷ 119 ∷ 97 ∷ 105 ∷ 116 ∷ 32 ∷ 114 ∷ 111 ∷ 111
    ∷ 116 ∷ 102 ∷ 115 ∷ 116 ∷ 121 ∷ 112 ∷ 101 ∷ 61 ∷ 101 ∷ 120 ∷ 116 ∷ 52 ∷ 32 ∷ 114 ∷ 119 ∷ 32
    ∷ 102 ∷ 115 ∷ 99 ∷ 107 ∷ 46 ∷ 114 ∷ 101 ∷ 112 ∷ 97 ∷ 105 ∷ 114 ∷ 61 ∷ 121 ∷ 101 ∷ 115 ∷ 32 ∷ 110
    ∷ 101 ∷ 116 ∷ 46 ∷ 105 ∷ 102 ∷ 110 ∷ 97 ∷ 109 ∷ 101 ∷ 115 ∷ 61 ∷ 48 ∷ 32 ∷ 99 ∷ 111 ∷ 110 ∷ 115
    ∷ 111 ∷ 108 ∷ 101 ∷ 98 ∷ 108 ∷ 97 ∷ 110 ∷ 107 ∷ 61 ∷ 48 ∷ 32 ∷ 112 ∷ 97 ∷ 110 ∷ 105 ∷ 99 ∷ 61
    ∷ 48 ∷ 0 ∷ 0 ∷ 0 ∷ 0 ∷ 0 ∷ 2 ∷ 0 ∷ 0 ∷ 0 ∷ 1 ∷ 114 ∷ 101 ∷ 115 ∷ 101 ∷ 114 ∷ 118 ∷ 101 ∷ 100
    ∷ 45 ∷ 109 ∷ 101 ∷ 109 ∷ 111 ∷ 114 ∷ 121 ∷ 0 ∷ 0 ∷ 0 ∷ 0 ∷ 1 ∷ 119 ∷ 109 ∷ 99 ∷ 112 ∷ 117 ∷ 45
    ∷ 114 ∷ 101 ∷ 115 ∷ 101 ∷ 114 ∷ 118 ∷ 101 ∷ 100 ∷ 64 ∷ 53 ∷ 48 ∷ 48 ∷ 48 ∷ 48 ∷ 48 ∷ 48 ∷ 48 ∷ 0
    ∷ 0 ∷ 0 ∷ 0 ∷ 3 ∷ 0 ∷ 0 ∷ 0 ∷ 16 ∷ 0 ∷ 0 ∷ 0 ∷ 11 ∷ 0 ∷ 0 ∷ 0 ∷ 0 ∷ 80 ∷ 0 ∷ 0 ∷ 0 ∷ 0 ∷ 0 ∷ 0
    ∷ 0 ∷ 0 ∷ 16 ∷ 0 ∷ 0 ∷ 0 ∷ 0 ∷ 0 ∷ 3 ∷ 0 ∷ 0 ∷ 0 ∷ 0 ∷ 0 ∷ 0 ∷ 0 ∷ 24 ∷ 0 ∷ 0 ∷ 0 ∷ 2 ∷ 0 ∷ 0
    ∷ 0 ∷ 1 ∷ 114 ∷ 97 ∷ 109 ∷ 111 ∷ 111 ∷ 112 ∷ 115 ∷ 64 ∷ 55 ∷ 102 ∷ 102 ∷ 55 ∷ 48 ∷ 48 ∷ 48 ∷ 48
    ∷ 0 ∷ 0 ∷ 0 ∷ 0 ∷ 0 ∷ 0 ∷ 0 ∷ 3 ∷ 0 ∷ 0 ∷ 0 ∷ 16 ∷ 0 ∷ 0 ∷ 0 ∷ 11 ∷ 0 ∷ 0 ∷ 0 ∷ 0 ∷ 127 ∷ 247
    ∷ 0 ∷ 0 ∷ 0 ∷ 0 ∷ 0 ∷ 0 ∷ 0 ∷ 1 ∷ 0 ∷ 0 ∷ 0 ∷ 0 ∷ 0 ∷ 2 ∷ 0 ∷ 0 ∷ 0 ∷ 1 ∷ 115 ∷ 101 ∷ 99 ∷ 109
    ∷ 111 ∷ 110 ∷ 64 ∷ 55 ∷ 102 ∷ 102 ∷ 56 ∷ 48 ∷ 48 ∷ 48 ∷ 48 ∷ 0 ∷ 0 ∷ 0 ∷ 0 ∷ 3 ∷ 0 ∷ 0 ∷ 0 ∷ 16
    ∷ 0 ∷ 0 ∷ 0 ∷ 11 ∷ 0 ∷ 0 ∷ 0 ∷ 0 ∷ 127 ∷ 248 ∷ 0 ∷ 0 ∷ 0 ∷ 0 ∷ 0 ∷ 0 ∷ 0 ∷ 8 ∷ 0 ∷ 0 ∷ 0 ∷ 0 ∷ 0
    ∷ 3 ∷ 0 ∷ 0 ∷ 0 ∷ 0 ∷ 0 ∷ 0 ∷ 0 ∷ 24 ∷ 0 ∷ 0 ∷ 0 ∷ 2 ∷ 0 ∷ 0 ∷ 0 ∷ 2 ∷ 0 ∷ 0 ∷ 0 ∷ 2 ∷ 0 ∷ 0 ∷ 0
    ∷ 9 ∷ 99 ∷ 111 ∷ 109 ∷ 112 ∷ 97 ∷ 116 ∷ 105 ∷ 98 ∷ 108 ∷ 101 ∷ 0 ∷ 114 ∷ 101 ∷ 103 ∷ 0 ∷ 98
    ∷ 111 ∷ 111 ∷ 116 ∷ 97 ∷ 114 ∷ 103 ∷ 115 ∷ 0 ∷ 110 ∷ 111 ∷ 45 ∷ 109 ∷ 97 ∷ 112 ∷ 0 ∷ 0 ∷ 0 ∷ 0
    ∷ 0 ∷ 1 ∷ 104 ∷ 97 ∷ 115 ∷ 104 ∷ 45 ∷ 49 ∷ 0 ∷ 0 ∷ 0 ∷ 0 ∷ 0 ∷ 3 ∷ 0 ∷ 0 ∷ 0 ∷ 7 ∷ 0 ∷ 0 ∷ 0
    ∷ 41 ∷ 115 ∷ 104 ∷ 97 ∷ 50 ∷ 53 ∷ 54 ∷ 0 ∷ 0 ∷ 0 ∷ 0 ∷ 0 ∷ 3 ∷ 0 ∷ 0 ∷ 0 ∷ 4 ∷ 0 ∷ 0 ∷ 0 ∷ 46
    ∷ 208 ∷ 13 ∷ 254 ∷ 237 ∷ 0 ∷ 0 ∷ 0 ∷ 2 ∷ 0 ∷ 0 ∷ 0 ∷ 2 ∷ 0 ∷ 0 ∷ 0 ∷ 2 ∷ 0 ∷ 0 ∷ 0 ∷ 1 ∷ 99
    ∷ 111 ∷ 110 ∷ 102 ∷ 105 ∷ 103 ∷ 117 ∷ 114 ∷ 97 ∷ 116 ∷ 105 ∷ 111 ∷ 110 ∷ 115 ∷ 0 ∷ 0 ∷ 0 ∷ 0 ∷ 0
    ∷ 3 ∷ 0 ∷ 0 ∷ 0 ∷ 7 ∷ 0 ∷ 0 ∷ 0 ∷ 52 ∷ 99 ∷ 111 ∷ 110 ∷ 102 ∷ 45 ∷ 49 ∷ 0 ∷ 0 ∷ 0 ∷ 0 ∷ 0 ∷ 1
    ∷ 99 ∷ 111 ∷ 110 ∷ 102 ∷ 45 ∷ 49 ∷ 0 ∷ 0 ∷ 0 ∷ 0 ∷ 0 ∷ 3 ∷ 0 ∷ 0 ∷ 0 ∷ 9 ∷ 0 ∷ 0 ∷ 0 ∷ 60 ∷ 107
    ∷ 101 ∷ 114 ∷ 110 ∷ 101 ∷ 108 ∷ 45 ∷ 49 ∷ 0 ∷ 0 ∷ 0 ∷ 0 ∷ 0 ∷ 0 ∷ 0 ∷ 3 ∷ 0 ∷ 0 ∷ 0 ∷ 10 ∷ 0 ∷ 0
    ∷ 0 ∷ 67 ∷ 114 ∷ 97 ∷ 109 ∷ 100 ∷ 105 ∷ 115 ∷ 107 ∷ 45 ∷ 49 ∷ 0 ∷ 0 ∷ 0 ∷ 0 ∷ 0 ∷ 0 ∷ 3 ∷ 0 ∷ 0
    ∷ 0 ∷ 6 ∷ 0 ∷ 0 ∷ 0 ∷ 75 ∷ 102 ∷ 100 ∷ 116 ∷ 45 ∷ 49 ∷ 0 ∷ 0 ∷ 0 ∷ 0 ∷ 0 ∷ 0 ∷ 2 ∷ 0 ∷ 0 ∷ 0 ∷ 2
    ∷ 0 ∷ 0 ∷ 0 ∷ 2 ∷ 0 ∷ 0 ∷ 0 ∷ 9 ∷ 116 ∷ 121 ∷ 112 ∷ 101 ∷ 0 ∷ 97 ∷ 114 ∷ 99 ∷ 104 ∷ 0 ∷ 99 ∷ 111
    ∷ 109 ∷ 112 ∷ 114 ∷ 101 ∷ 115 ∷ 115 ∷ 105 ∷ 111 ∷ 110 ∷ 0 ∷ 108 ∷ 111 ∷ 97 ∷ 100 ∷ 0 ∷ 111 ∷ 115
    ∷ 0 ∷ 101 ∷ 110 ∷ 116 ∷ 114 ∷ 121 ∷ 0 ∷ 100 ∷ 97 ∷ 116 ∷ 97 ∷ 0 ∷ 97 ∷ 108 ∷ 103 ∷ 111 ∷ 0 ∷ 118
    ∷ 97 ∷ 108 ∷ 117 ∷ 101 ∷ 0 ∷ 100 ∷ 101 ∷ 102 ∷ 97 ∷ 117 ∷ 108 ∷ 116 ∷ 0 ∷ 107 ∷ 101 ∷ 114 ∷ 110
    ∷ 101 ∷ 108 ∷ 0 ∷ 114 ∷ 97 ∷ 109 ∷ 100 ∷ 105 ∷ 115 ∷ 107 ∷ 0 ∷ 102 ∷ 100 ∷ 116 ∷ 0 ∷ 0 ∷ 0 ∷ 0
    ∷ 0 ∷ 0 ∷ 0 ∷ 0 ∷ 0 ∷ 0 ∷ 0 ∷ 0 ∷ 0 ∷ 0 ∷ 0 ∷ 0 ∷ 0 ∷ 0 ∷ 0 ∷ 0 ∷ 0 ∷ 0 ∷ 0 ∷ 0 ∷ 0 ∷ 0 ∷ 0 ∷ 0
    ∷ 0 ∷ 0 ∷ 0 ∷ 0 ∷ 0 ∷ 0 ∷ 0 ∷ 0 ∷ 0 ∷ 0 ∷ 0 ∷ 0 ∷ 0 ∷ 0 ∷ 0 ∷ 0 ∷ 0 ∷ 0 ∷ 0 ∷ 0 ∷ 0 ∷ 0 ∷ 0 ∷ 0
    ∷ 0 ∷ 0 ∷ 0 ∷ 0 ∷ 0 ∷ 0 ∷ 0 ∷ 0 ∷ 0 ∷ 0 ∷ 0 ∷ 0 ∷ 0 ∷ 0 ∷ 0 ∷ 0 ∷ 0 ∷ 0 ∷ 0 ∷ 0 ∷ 0 ∷ 0 ∷ 0 ∷ 0
    ∷ 0 ∷ 0 ∷ 0 ∷ 0 ∷ 0 ∷ 0 ∷ 0 ∷ 0 ∷ 0 ∷ 0 ∷ 0 ∷ 0 ∷ 0 ∷ 0 ∷ 0 ∷ 0 ∷ 0 ∷ 0 ∷ 0 ∷ 0 ∷ 0 ∷ 0 ∷ 0 ∷ 0
    ∷ 0 ∷ 0 ∷ 0 ∷ 0 ∷ 0 ∷ 0 ∷ 0 ∷ 0 ∷ 0 ∷ 0 ∷ 0 ∷ 0 ∷ 0 ∷ 0 ∷ []

abbrev pub codecs : Codecs
codecs = record {
  sha256 = take 4;
  decompress = λ packed limit. some (record { eof = true; unused = []; raw = image });
}
