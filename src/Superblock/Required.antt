-- ===== src/Superblock/Required.antt =====
-- The list of required codecs that a writer builds with `add_required_codec` (src/superblock.rs): it
-- holds every codec added once and no other, so it always fits the superblock.
use cy.Common.{
  ℕ, ◌+◌, ◌≤◌, ◌≡◌, refl, Bool, true, false, ◌||◌, List, [], ◌∷◌, ◌++◌, arith, Bool-cases, inl, inr,
  if◌then◌else◌, length, length-append, All, All-append, some,
}
use cy.Bytes.{Bytes, bytes_eq}
use cy.Bytes.Laws.{bytes_eq_refl}
use cy.Codec.{CodecId, uuid, codec_eq}
use cy.Codec.Laws.{from_uuid_iff}
use cy.Superblock.{Superblock, new, contains, add_required_codec, write, IsSuperblock}
use cy.Superblock.Parts.{IsKnown}
use cy.Superblock.Laws.{write_cases, IsSuperblock-HasWidths}
use cy.Libs.{Libs}

-- How often a UUID stands in the list.
abbrev occurs : Bytes → List Bytes → ℕ
occurs u [] = 0
occurs u (v ∷ vs) = (if bytes_eq v u then 1 else 0) + occurs u vs

occurs-append : (u : Bytes) (vs ws : List Bytes) → occurs u (vs ++ ws) ≡ occurs u vs + occurs u ws
occurs-append u [] ws = omega arith
occurs-append u (v ∷ vs) ws = omega (arith, occurs-append u vs ws)

occurs-contains : (u : Bytes) (vs : List Bytes) → contains vs u ≡ false → occurs u vs ≡ 0
unfolding contains
occurs-contains u [] h = refl
occurs-contains u (v ∷ vs) h = ground (arith, occurs-contains u vs)

abbrev times : CodecId → List Bytes → ℕ
times c us = occurs (uuid c) us

-- Each codec but `None` stands at most once, and nothing else stands in the list.
pub record IsRequired (us : List Bytes) : Type 0 where
  pub zstd_once : times CodecId.zstd us ≤ 1
  pub lz4_once : times CodecId.lz4 us ≤ 1
  pub brotli_once : times CodecId.brotli us ≤ 1
  pub lzma_once : times CodecId.lzma us ≤ 1
  pub only :
      length us
      ≡ times CodecId.zstd us
        + times CodecId.lz4 us
        + times CodecId.brotli us
        + times CodecId.lzma us

push-IsRequired :
    (c : CodecId) (us : List Bytes)
    → codec_eq c CodecId.none ≡ false
    → contains us (uuid c) ≡ false
    → IsRequired us
    → IsRequired (us ++ uuid c ∷ [])
unfolding uuid bytes_eq codec_eq
push-IsRequired CodecId.none us h new r = cc
push-IsRequired c us h new r =
    omega (arith, occurs-append, occurs-contains (uuid c) us new, length-append us (uuid c ∷ []))

pub record IsBuilt (sb : Superblock) : Type 0 where
  pub required : IsRequired sb.required_codec_uuids
  pub valid : IsSuperblock sb
  pub known : All IsKnown sb.required_codec_uuids

uuid-width : (c : CodecId) → length (uuid c) ≡ 16
unfolding uuid
uuid-width CodecId.none = refl
uuid-width _ = refl

pub add_required_codec-IsBuilt :
    (c : CodecId) (sb : Superblock) → IsBuilt sb → IsBuilt (add_required_codec c sb)
unfolding add_required_codec
add_required_codec-IsBuilt c sb b = elim (Bool-cases (codec_eq c CodecId.none)) [
  | inl skip ↦ rw skip b
  | inr want ↦ elim (Bool-cases (contains sb.required_codec_uuids (uuid c))) [
    | inl old ↦ rw (want, old) b
    | inr fresh ↦
        rw (want, fresh)
          (record {
            required = push-IsRequired c sb.required_codec_uuids want fresh b.required;
            valid = record {
              magic_const = b.valid.magic_const;
              version_u32 = b.valid.version_u32;
              version_min = b.valid.version_min;
              uuid_width = b.valid.uuid_width;
              flags_u32 = b.valid.flags_u32;
              index_offset_u64 = b.valid.index_offset_u64;
              index_size_u64 = b.valid.index_size_u64;
              codec_widths =
                  All-append (λ u. length u ≡ 16) _ _ b.valid.codec_widths (uuid-width c, tt);
            };
            known = All-append IsKnown _ _ b.known ((c, (from_uuid_iff _ c).1 refl), tt);
          })
  ]
]

-- A list that `add_required_codec` built is short.
pub IsBuilt-few : (sb : Superblock) → IsBuilt sb → length sb.required_codec_uuids ≤ 4
IsBuilt-few sb b = omega (arith, b.required)

pub add_required_codec-flags :
    (c : CodecId) (sb : Superblock) → (add_required_codec c sb).flags ≡ sb.flags
unfolding add_required_codec
add_required_codec-flags c sb = ground arith

-- `add_required_codec` for each codec of a list in turn.
pub add_all : List CodecId → Superblock → Superblock
add_all [] sb = sb
add_all (c ∷ cs) sb = add_all cs (add_required_codec c sb)

add_all-IsBuilt : (cs : List CodecId) (sb : Superblock) → IsBuilt sb → IsBuilt (add_all cs sb)
unfolding add_all
add_all-IsBuilt [] sb b = b
add_all-IsBuilt (c ∷ cs) sb b =
    add_all-IsBuilt cs (add_required_codec c sb) (add_required_codec-IsBuilt c sb b)

pub new-IsBuilt : (u : Bytes) → length u ≡ 16 → IsBuilt (new u)
unfolding new
new-IsBuilt u h = record {
  required = omega arith;
  valid = record {
    magic_const = refl;
    version_u32 = omega arith;
    version_min = omega arith;
    uuid_width = h;
    flags_u32 = omega arith;
    index_offset_u64 = omega arith;
    index_size_u64 = omega arith;
    codec_widths = tt;
  };
  known = tt;
}

-- However `add_required_codec` is called on a new superblock with a 16-byte UUID, it can be
-- written, as 256 bytes: at most four codecs are listed, and this build knows each.
pub add_all_fits :
    (L : Libs) (u : Bytes) (cs : List CodecId)
    → length u ≡ 16
    → (bs : Bytes) × (write L (add_all cs (new u)) ≡ some bs)
      × (length bs ≡ 256)
      × (length (add_all cs (new u)).required_codec_uuids ≤ 4)
      × All IsKnown (add_all cs (new u)).required_codec_uuids
add_all_fits L u cs h =
    let b = add_all-IsBuilt cs (new u) (new-IsBuilt u h) in
    let few : length (add_all cs (new u)).required_codec_uuids ≤ 4 = omega (arith, b.required) in
    elim (write_cases L (add_all cs (new u)) (IsSuperblock-HasWidths _ b.valid)) [
      | inl (bs, e, size, _) ↦ (bs, e, size, few, b.known)
      | inr (_, many) ↦ absurd (omega arith)
    ]

-- A codec is one of the list.
pub listed : CodecId → List CodecId → Bool
listed c [] = false
listed c (d ∷ ds) = codec_eq d c || listed c ds

contains-append :
    (u v : Bytes) (us : List Bytes) → contains (us ++ v ∷ []) u ≡ (contains us u || bytes_eq v u)
unfolding contains
contains-append u v [] = ground arith
contains-append u v (w ∷ us) = ground (arith, contains-append u v us)

uuid_eq : (c d : CodecId) → bytes_eq (uuid c) (uuid d) ≡ codec_eq c d
unfolding uuid bytes_eq codec_eq
uuid_eq CodecId.none CodecId.none = refl
uuid_eq CodecId.none _ = refl
uuid_eq CodecId.zstd CodecId.none = refl
uuid_eq CodecId.zstd _ = refl
uuid_eq CodecId.lz4 CodecId.none = refl
uuid_eq CodecId.lz4 _ = refl
uuid_eq CodecId.brotli CodecId.none = refl
uuid_eq CodecId.brotli _ = refl
uuid_eq CodecId.lzma CodecId.none = refl
uuid_eq CodecId.lzma _ = refl

codec_eq→eq : (c d : CodecId) → codec_eq c d ≡ true → c ≡ d
unfolding codec_eq
codec_eq→eq c d h = ground arith

contains-add_required_codec :
    (c d : CodecId) (sb : Superblock)
    → codec_eq d CodecId.none ≡ false
    → contains (add_required_codec c sb).required_codec_uuids (uuid d)
      ≡ (codec_eq c d || contains sb.required_codec_uuids (uuid d))
unfolding add_required_codec codec_eq
contains-add_required_codec c d sb real = elim (Bool-cases (codec_eq c d)) [
  | inl same ↦ rw (codec_eq→eq c d same) (
      ground
        (arith, contains-append (uuid d) (uuid d) sb.required_codec_uuids, bytes_eq_refl (uuid d)))
  | inr other ↦
      ground (arith, contains-append (uuid d) (uuid c) sb.required_codec_uuids, uuid_eq c d)
]

-- After any sequence of `add_required_codec`, a codec other than `None` is listed exactly if it is
-- one of the sequence or was listed before.
pub contains-add_all :
    (cs : List CodecId) (d : CodecId) (sb : Superblock)
    → codec_eq d CodecId.none ≡ false
    → contains (add_all cs sb).required_codec_uuids (uuid d)
      ≡ (listed d cs || contains sb.required_codec_uuids (uuid d))
unfolding add_all listed
contains-add_all [] d sb real = refl
contains-add_all (c ∷ cs) d sb real =
    ground
      (arith, contains-add_all cs d (add_required_codec c sb), contains-add_required_codec c d sb)
