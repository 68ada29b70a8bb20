-- ===== src/Resource/Format.antt =====
-- rvgpu-virgl-format.h and the head of rvgpu-res.c: the classes of pixel formats, by the numbers
-- that `enum virgl_formats` gives them.
use remote_virtio_gpu.Prelude.{ℕ, List, [], ◌∷◌, Bool, false, ◌||◌, ◌==◌, if◌then◌else◌}

-- Whether a number is among the labels of a `case`.
abbrev pub elem : ℕ → List ℕ → Bool
elem x [] = false
elem x (y ∷ ys) = x == y || elem x ys

abbrev pub format_yv12 : ℕ
format_yv12 = 163

abbrev pub format_nv12 : ℕ
format_nv12 = 166

abbrev pub format_p010 : ℕ
format_p010 = 314

-- NV12, P010, YV12, YV16, IYUV, NV21
abbrev pub yuv_formats : List ℕ
yuv_formats = 166 ∷ 314 ∷ 163 ∷ 164 ∷ 165 ∷ 167 ∷ []

unfoldable pub virgl_format_is_yuv : ℕ → Bool
virgl_format_is_yuv format = elem format yuv_formats

-- DXT1 to DXT5, RGTC1 and RGTC2, ETC1 and ETC2, ASTC 4x4 to 12x12, and ASTC 4x4 to 12x12 in sRGB.
abbrev pub compressed_formats : List ℕ
compressed_formats =
    105 ∷ 106 ∷ 107 ∷ 108 ∷ 109 ∷ 110 ∷ 111 ∷ 112 ∷ 113 ∷ 114 ∷ 115 ∷ 116 ∷ 226 ∷ 269 ∷ 270 ∷ 271
    ∷ 272 ∷ 273 ∷ 274 ∷ 275 ∷ 276 ∷ 277 ∷ 278 ∷ 279 ∷ 280 ∷ 281 ∷ 282 ∷ 283 ∷ 284 ∷ 285 ∷ 286 ∷ 287
    ∷ 288 ∷ 289 ∷ 290 ∷ 291 ∷ 292 ∷ 293 ∷ 294 ∷ 295 ∷ 296 ∷ 297 ∷ 298 ∷ 299 ∷ 300 ∷ 301 ∷ 302 ∷ 303
    ∷ 304 ∷ 305 ∷ 306 ∷ []

unfoldable pub virgl_format_is_compressed : ℕ → Bool
virgl_format_is_compressed format = elem format compressed_formats

-- The labels of the case 1 of `get_format_bpp`, which returns 0.
abbrev bpp_case_1 : List ℕ
bpp_case_1 = 0 ∷ []

-- The labels of the case 2 of `get_format_bpp`, which returns 4.
abbrev bpp_case_2 : List ℕ
bpp_case_2 =
    1 ∷ 2 ∷ 3 ∷ 4 ∷ 67 ∷ 68 ∷ 98 ∷ 99 ∷ 100 ∷ 101 ∷ 102 ∷ 103 ∷ 104 ∷ 184 ∷ 180 ∷ 121 ∷ 134 ∷ 230
    ∷ 232 ∷ 231 ∷ 28 ∷ 32 ∷ 36 ∷ 40 ∷ 44 ∷ 87 ∷ 193 ∷ 197 ∷ 8 ∷ 123 ∷ 172 ∷ 173 ∷ 253 ∷ 131 ∷ 174
    ∷ 175 ∷ 176 ∷ 225 ∷ 267 ∷ 268 ∷ 308 ∷ 311 ∷ 124 ∷ 125 ∷ 17 ∷ 20 ∷ 77 ∷ 21 ∷ 18 ∷ 160 ∷ 229 ∷ 233
    ∷ []

-- The labels of the case 3 of `get_format_bpp`, which returns 2.
abbrev bpp_case_3 : List ℕ
bpp_case_3 =
    5 ∷ 6 ∷ 7 ∷ 12 ∷ 48 ∷ 52 ∷ 56 ∷ 60 ∷ 91 ∷ 185 ∷ 189 ∷ 96 ∷ 65 ∷ 70 ∷ 75 ∷ 83 ∷ 178 ∷ 182 ∷ 264
    ∷ 263 ∷ 259 ∷ 260 ∷ 261 ∷ 16 ∷ 156 ∷ []

-- The labels of the case 4 of `get_format_bpp`, which returns 1.
abbrev bpp_case_4 : List ℕ
bpp_case_4 = 9 ∷ 10 ∷ 11 ∷ 23 ∷ 64 ∷ 69 ∷ 74 ∷ 82 ∷ 95 ∷ 177 ∷ 181 ∷ 312 ∷ []

-- The labels of the case 5 of `get_format_bpp`, which returns 8.
abbrev bpp_case_5 : List ℕ
bpp_case_5 = 24 ∷ []

-- The labels of the case 6 of `get_format_bpp`, which returns 16.
abbrev bpp_case_6 : List ℕ
bpp_case_6 = 25 ∷ []

-- The labels of the case 7 of `get_format_bpp`, which returns 24.
abbrev bpp_case_7 : List ℕ
bpp_case_7 = 26 ∷ []

-- The labels of the case 8 of `get_format_bpp`, which returns 32.
abbrev bpp_case_8 : List ℕ
bpp_case_8 = 27 ∷ []

-- The labels of the case 9 of `get_format_bpp`, which returns 8.
abbrev bpp_case_9 : List ℕ
bpp_case_9 = 29 ∷ 33 ∷ 37 ∷ 41 ∷ 45 ∷ 88 ∷ 194 ∷ 198 ∷ 237 ∷ 238 ∷ 126 ∷ []

-- The labels of the case 10 of `get_format_bpp`, which returns 12.
abbrev bpp_case_10 : List ℕ
bpp_case_10 = 30 ∷ 34 ∷ 38 ∷ 42 ∷ 46 ∷ 89 ∷ 195 ∷ 199 ∷ []

-- The labels of the case 11 of `get_format_bpp`, which returns 16.
abbrev bpp_case_11 : List ℕ
bpp_case_11 = 31 ∷ 35 ∷ 39 ∷ 43 ∷ 47 ∷ 90 ∷ 196 ∷ 200 ∷ []

-- The labels of the case 12 of `get_format_bpp`, which returns 4.
abbrev bpp_case_12 : List ℕ
bpp_case_12 = 49 ∷ 53 ∷ 57 ∷ 61 ∷ 92 ∷ 186 ∷ 190 ∷ 265 ∷ 266 ∷ []

-- The labels of the case 13 of `get_format_bpp`, which returns 6.
abbrev bpp_case_13 : List ℕ
bpp_case_13 = 50 ∷ 54 ∷ 58 ∷ 62 ∷ 93 ∷ 187 ∷ 191 ∷ []

-- The labels of the case 14 of `get_format_bpp`, which returns 8.
abbrev bpp_case_14 : List ℕ
bpp_case_14 = 51 ∷ 55 ∷ 59 ∷ 63 ∷ 94 ∷ 188 ∷ 192 ∷ 236 ∷ []

-- Bytes per pixel.
unfoldable pub get_format_bpp : ℕ → ℕ
get_format_bpp format =
    if elem format bpp_case_1
    then 0
    else if elem format bpp_case_2
    then 4
    else if elem format bpp_case_3
    then 2
    else if elem format bpp_case_4
    then 1
    else if elem format bpp_case_5
    then 8
    else if elem format bpp_case_6
    then 16
    else if elem format bpp_case_7
    then 24
    else if elem format bpp_case_8
    then 32
    else if elem format bpp_case_9
    then 8
    else if elem format bpp_case_10
    then 12
    else if elem format bpp_case_11
    then 16
    else if elem format bpp_case_12
    then 4
    else if elem format bpp_case_13
    then 6
    else if elem format bpp_case_14
    then 8
    else 0
