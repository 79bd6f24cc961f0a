-- ===== src/Platform/Accent.antt =====
-- crates/wx-platform/src/keyres.rs, Accent: the accents that dead keys carry. A character is its
-- code point, and a text the list of its characters.
use win_xtend.Prelude.{
  ℕ, suc, Bool, ◌==◌, if◌then◌else◌, Option, none, some, ◌>>=◌, map_option, List, [], ◌∷◌, any_of,
  get_elem?,
}

pub data Accent : Type 0 where
  acute grave circumflex tilde diaeresis ring cedilla caron macron breve dot_above double_acute
        ogonek :
      Accent

abbrev pub all_accents : List Accent
all_accents =
    acute ∷ grave ∷ circumflex ∷ tilde ∷ diaeresis ∷ ring ∷ cedilla ∷ caron ∷ macron ∷ breve
    ∷ dot_above ∷ double_acute ∷ ogonek ∷ []

abbrev one_of : List ℕ → ℕ → Bool
one_of cs c = any_of (λ d. d == c) cs

unfoldable pub classify : ℕ → Option Accent
classify c =
    if one_of (39 ∷ 180 ∷ 769 ∷ []) c
    then some acute
    else if one_of (96 ∷ 715 ∷ 768 ∷ []) c
    then some grave
    else if one_of (94 ∷ 710 ∷ 770 ∷ []) c
    then some circumflex
    else if one_of (126 ∷ 732 ∷ 771 ∷ []) c
    then some tilde
    else if one_of (34 ∷ 168 ∷ 776 ∷ []) c
    then some diaeresis
    else if one_of (176 ∷ 730 ∷ 778 ∷ []) c
    then some ring
    else if one_of (44 ∷ 184 ∷ 807 ∷ []) c
    then some cedilla
    else if one_of (711 ∷ 780 ∷ []) c
    then some caron
    else if one_of (175 ∷ 713 ∷ 772 ∷ []) c
    then some macron
    else if one_of (728 ∷ 774 ∷ []) c
    then some breve
    else if one_of (729 ∷ 775 ∷ []) c
    then some dot_above
    else if one_of (733 ∷ 779 ∷ []) c
    then some double_acute
    else if one_of (731 ∷ 808 ∷ []) c
    then some ogonek
    else none

abbrev pub spacing : Accent → ℕ
spacing acute = 180
spacing grave = 96
spacing circumflex = 94
spacing tilde = 126
spacing diaeresis = 168
spacing ring = 176
spacing cedilla = 184
spacing caron = 711
spacing macron = 175
spacing breve = 728
spacing dot_above = 729
spacing double_acute = 733
spacing ogonek = 731

abbrev pub combining : Accent → ℕ
combining acute = 769
combining grave = 768
combining circumflex = 770
combining tilde = 771
combining diaeresis = 776
combining ring = 778
combining cedilla = 807
combining caron = 780
combining macron = 772
combining breve = 774
combining dot_above = 775
combining double_acute = 779
combining ogonek = 808

-- The bases, and what each composes to.
abbrev pub table : Accent → List ℕ × List ℕ
table acute = (
  97 ∷ 101 ∷ 105 ∷ 111 ∷ 117 ∷ 121 ∷ 99 ∷ 108 ∷ 110 ∷ 114 ∷ 115 ∷ 122 ∷ 65 ∷ 69 ∷ 73 ∷ 79 ∷ 85 ∷ 89
      ∷ 67 ∷ 76 ∷ 78 ∷ 82 ∷ 83 ∷ 90 ∷ [],
  225 ∷ 233 ∷ 237 ∷ 243 ∷ 250 ∷ 253 ∷ 263 ∷ 314 ∷ 324 ∷ 341 ∷ 347 ∷ 378 ∷ 193 ∷ 201 ∷ 205 ∷ 211
      ∷ 218 ∷ 221 ∷ 262 ∷ 313 ∷ 323 ∷ 340 ∷ 346 ∷ 377 ∷ [],
)
table grave = (
  97 ∷ 101 ∷ 105 ∷ 111 ∷ 117 ∷ 65 ∷ 69 ∷ 73 ∷ 79 ∷ 85 ∷ [],
  224 ∷ 232 ∷ 236 ∷ 242 ∷ 249 ∷ 192 ∷ 200 ∷ 204 ∷ 210 ∷ 217 ∷ [],
)
table circumflex = (
  97 ∷ 99 ∷ 101 ∷ 103 ∷ 104 ∷ 105 ∷ 106 ∷ 111 ∷ 115 ∷ 117 ∷ 119 ∷ 121 ∷ 122 ∷ 65 ∷ 67 ∷ 69 ∷ 71 ∷ 72
      ∷ 73 ∷ 74 ∷ 79 ∷ 83 ∷ 85 ∷ 87 ∷ 89 ∷ 90 ∷ [],
  226 ∷ 265 ∷ 234 ∷ 285 ∷ 293 ∷ 238 ∷ 309 ∷ 244 ∷ 349 ∷ 251 ∷ 373 ∷ 375 ∷ 7825 ∷ 194 ∷ 264 ∷ 202
      ∷ 284 ∷ 292 ∷ 206 ∷ 308 ∷ 212 ∷ 348 ∷ 219 ∷ 372 ∷ 374 ∷ 7824 ∷ [],
)
table tilde = (
  97 ∷ 110 ∷ 111 ∷ 105 ∷ 117 ∷ 65 ∷ 78 ∷ 79 ∷ 73 ∷ 85 ∷ [],
  227 ∷ 241 ∷ 245 ∷ 297 ∷ 361 ∷ 195 ∷ 209 ∷ 213 ∷ 296 ∷ 360 ∷ [],
)
table diaeresis = (
  97 ∷ 101 ∷ 105 ∷ 111 ∷ 117 ∷ 121 ∷ 65 ∷ 69 ∷ 73 ∷ 79 ∷ 85 ∷ 89 ∷ [],
  228 ∷ 235 ∷ 239 ∷ 246 ∷ 252 ∷ 255 ∷ 196 ∷ 203 ∷ 207 ∷ 214 ∷ 220 ∷ 376 ∷ [],
)
table ring = (97 ∷ 117 ∷ 65 ∷ 85 ∷ [], 229 ∷ 367 ∷ 197 ∷ 366 ∷ [])
table cedilla = (
  99 ∷ 103 ∷ 107 ∷ 108 ∷ 110 ∷ 114 ∷ 115 ∷ 116 ∷ 67 ∷ 71 ∷ 75 ∷ 76 ∷ 78 ∷ 82 ∷ 83 ∷ 84 ∷ [],
  231 ∷ 291 ∷ 311 ∷ 316 ∷ 326 ∷ 343 ∷ 351 ∷ 355 ∷ 199 ∷ 290 ∷ 310 ∷ 315 ∷ 325 ∷ 342 ∷ 350 ∷ 354
      ∷ [],
)
table caron = (
  99 ∷ 100 ∷ 101 ∷ 108 ∷ 110 ∷ 114 ∷ 115 ∷ 116 ∷ 122 ∷ 67 ∷ 68 ∷ 69 ∷ 76 ∷ 78 ∷ 82 ∷ 83 ∷ 84 ∷ 90
      ∷ [],
  269 ∷ 271 ∷ 283 ∷ 318 ∷ 328 ∷ 345 ∷ 353 ∷ 357 ∷ 382 ∷ 268 ∷ 270 ∷ 282 ∷ 317 ∷ 327 ∷ 344 ∷ 352
      ∷ 356 ∷ 381 ∷ [],
)
table macron = (
  97 ∷ 101 ∷ 105 ∷ 111 ∷ 117 ∷ 65 ∷ 69 ∷ 73 ∷ 79 ∷ 85 ∷ [],
  257 ∷ 275 ∷ 299 ∷ 333 ∷ 363 ∷ 256 ∷ 274 ∷ 298 ∷ 332 ∷ 362 ∷ [],
)
table breve = (
  97 ∷ 101 ∷ 103 ∷ 105 ∷ 111 ∷ 117 ∷ 65 ∷ 69 ∷ 71 ∷ 73 ∷ 79 ∷ 85 ∷ [],
  259 ∷ 277 ∷ 287 ∷ 301 ∷ 335 ∷ 365 ∷ 258 ∷ 276 ∷ 286 ∷ 300 ∷ 334 ∷ 364 ∷ [],
)
table dot_above = (
  99 ∷ 101 ∷ 103 ∷ 122 ∷ 67 ∷ 69 ∷ 71 ∷ 90 ∷ [],
  267 ∷ 279 ∷ 289 ∷ 380 ∷ 266 ∷ 278 ∷ 288 ∷ 379 ∷ [],
)
table double_acute = (111 ∷ 117 ∷ 79 ∷ 85 ∷ [], 337 ∷ 369 ∷ 336 ∷ 368 ∷ [])
table ogonek = (
  97 ∷ 101 ∷ 105 ∷ 117 ∷ 65 ∷ 69 ∷ 73 ∷ 85 ∷ [],
  261 ∷ 281 ∷ 303 ∷ 371 ∷ 260 ∷ 280 ∷ 302 ∷ 370 ∷ [],
)

-- `position`
unfoldable pub position : List ℕ → ℕ → Option ℕ
position [] c = none
position (x ∷ xs) c = if x == c then some 0 else map_option suc (position xs c)

unfoldable pub precomposed : Accent → ℕ → Option ℕ
precomposed a base = position (table a).0 base >>= get_elem? (table a).1

unfoldable pub decompose_in : List Accent → ℕ → Option (ℕ × ℕ)
decompose_in [] c = none
decompose_in (a ∷ rest) c = elim (position (table a).1 c) [
  | some index ↦ map_option (λ base. (base, combining a)) (get_elem? (table a).0 index)
  | none ↦ decompose_in rest c
]

unfoldable pub decompose : ℕ → Option (ℕ × ℕ)
decompose c = decompose_in all_accents c

unfoldable pub compose : ℕ → List ℕ → List ℕ
compose accent [] = []
compose accent (base ∷ rest) = elim (classify accent) [
  | none ↦ accent ∷ base ∷ rest
  | some class ↦ if base == 32 then spacing class ∷ rest else elim (precomposed class base) [
    | some c ↦ c ∷ rest
    | none ↦ base ∷ combining class ∷ rest
  ]
]
