-- ===== src/Dash/BlockPattern/Construction.antt =====
-- What the constructor builds.
use coronas.Prelude.{
  ℕ, ◌<◌, ◌≡◌, refl, sym, ap, subst, ◌∙◌, false, Option, none, some, List, [], ◌∷◌, arith, ◌==◌,
  ◌>>=◌, length,
}
use coronas.Dash.Distribution.{div_ceil, Distribution, max_blocksize_in_range}
use coronas.Dash.BlockPattern1D.{Layout, layout, initialize_blocksize, initialize_num_blocks}
use coronas.Dash.BlockPattern.{
  BlockPattern, blocksizes_loop, initialize_blocksizespec, blocks_loop, initialize_blockspec,
  dims_of, initialize_local_extents, pattern,
}
use coronas.Dash.BlockPattern.Dims.{IsRegular}
use coronas.Dash.BlockPattern.Loops.{sizes_of, units_of, AllRegular}
use coronas.Dash.BlockPattern.RoundTrip.{IsBuilt}
use coronas.Dash.CartesianIndexSpace.{MemArrange, resize}
use coronas.Dash.CartesianIndexSpace.RoundTrip.{size_volume}
use coronas.Dash.CartesianSpace.{volume, size_loop, size_loop_lem}
use mathlib.Core.Option.{some-injective}
use native.Mathlib.Nat.{mul-pos}

abbrev pub AllPositive : List ℕ → Type 0
AllPositive [] = Unit {0}
AllPositive (n ∷ ns) = (0 < n) × AllPositive ns

volume_pos : (ns : List ℕ) → AllPositive ns → 0 < volume ns
volume_pos [] h = omega arith
volume_pos (n ∷ ns) h = mul-pos h.0 (volume_pos ns h.1)

nonzero : {n : ℕ} → 0 < n → (n == 0) ≡ false
nonzero h = ground (arith, h)

abbrev dim : ℕ → Distribution → (n b : ℕ) → Layout
dim s d n b = record { size = s; dist = d; nunits = n; blocksize = b; nblocks = div_ceil s b }

dim-IsRegular :
    (s : ℕ) (d : Distribution) (n b : ℕ)
    → max_blocksize_in_range d.dist_type d.blocksz s n ≡ some b
    → 0 < n
    → 0 < b
    → IsRegular (dim s d n b)
unfolding layout initialize_blocksize initialize_num_blocks
dim-IsRegular s d n b e hn hb = record {
  laid = rw (nonzero hn, e, nonzero hb) refl;
  units = hn;
  elements = hb;
}

bind-cons :
    (o : Option ℕ) (q : Option (List ℕ)) {bs : List ℕ}
    → (o >>= λ b. q >>= λ r. some (b ∷ r)) ≡ some bs
    → (b : ℕ) × (r : List ℕ) × (o ≡ some b) × (q ≡ some r) × (b ∷ r ≡ bs)
bind-cons none q h = absurd (cc)
bind-cons (some a) none h = absurd (cc)
bind-cons (some a) (some b) h = (a, b, refl, refl, some-injective _ _ h)

-- What the five lists say, where all have an entry for each dimension.
abbrev Agrees : (sizes : List ℕ) → List Distribution → (units bs : List ℕ) → Type 0
Agrees sizes dists units bs =
    let ds = dims_of sizes dists units bs (blocks_loop sizes bs) in
    AllRegular ds × (sizes_of ds ≡ sizes) × (units_of ds ≡ units)

dims_agree :
    (sizes : List ℕ) (dists : List Distribution) (units bs : List ℕ)
    → blocksizes_loop sizes dists units ≡ some bs
    → length units ≡ length sizes
    → AllPositive units
    → AllPositive bs
    → Agrees sizes dists units bs
unfolding blocksizes_loop dims_of blocks_loop
dims_agree [] dists [] bs e l hu hb = (tt, refl, refl)
dims_agree [] dists (u ∷ units) bs e l hu hb = absurd (omega (arith, l))
dims_agree (s ∷ sizes) [] units bs e l hu hb = absurd (cc)
dims_agree (s ∷ sizes) (d ∷ dists) [] bs e l hu hb = absurd (cc)
dims_agree (s ∷ sizes) (d ∷ dists) (n ∷ units) bs e l hu hb =
    let (b, r, eb, er, same) =
      bind-cons (max_blocksize_in_range d.dist_type d.blocksz s n)
        (blocksizes_loop sizes dists units) e in
    let pos = subst AllPositive (sym same) hb in
    let (reg, ss, us) = dims_agree sizes dists units r er (omega (arith, l)) hu.1 pos.1 in
    subst (Agrees (s ∷ sizes) (d ∷ dists) (n ∷ units)) same
      ((dim-IsRegular s d n b eb hu.0 pos.0, reg), ap (λ x. s ∷ x) ss, ap (λ x. n ∷ x) us)

blockspec_lem :
    (sizes bs : List ℕ) → AllPositive bs → initialize_blockspec sizes bs ≡ blocks_loop sizes bs
unfolding initialize_blockspec
blockspec_lem sizes bs h =
    let some_elements : 0 < size_loop 1 bs = omega (arith, size_loop_lem 1 bs, volume_pos bs h) in
    rw (nonzero some_elements) refl

blocksizespec_lem :
    (size : ℕ) (sizes : List ℕ) (dists : List Distribution) (units : List ℕ)
    → 0 < size
    → initialize_blocksizespec size sizes dists units ≡ blocksizes_loop sizes dists units
unfolding initialize_blocksizespec
blocksizespec_lem size sizes dists units h = rw (nonzero h) refl

-- The members, where the dimensions and the numbers of elements are known.
abbrev members :
    MemArrange → List ℕ → List ℕ → (nunits myid : ℕ) → List Layout → List ℕ → BlockPattern
members arrangement sizes units nunits myid ds es = record {
  arrangement = arrangement;
  nunits = nunits;
  dims = ds;
  teamspec = resize units;
  memory_layout = resize sizes;
  myid = myid;
  local_memory_layout = resize es;
}

members-IsBuilt :
    (arrangement : MemArrange) (sizes units : List ℕ) (nunits myid : ℕ) (ds : List Layout)
    (es : List ℕ)
    → AllRegular ds
    → sizes_of ds ≡ sizes
    → units_of ds ≡ units
    → initialize_local_extents nunits ds (resize units) myid ≡ some es
    → IsBuilt (members arrangement sizes units nunits myid ds es)
members-IsBuilt arrangement sizes units nunits myid ds es r ss us e = record {
  regular = r;
  team = ap resize (sym us);
  memory = ap resize (sym ss);
  own = es;
  own_extents = e;
  own_layout = refl;
}

pattern_steps :
    (arrangement : MemArrange) (sizes : List ℕ) (dists : List Distribution) (units bs : List ℕ)
    (nunits myid : ℕ)
    → initialize_blocksizespec (resize units).size sizes dists units ≡ some bs
    → AllPositive bs
    → pattern arrangement sizes dists units nunits myid ≡ (
        initialize_local_extents nunits
          (dims_of sizes dists units bs (blocks_loop sizes bs))
          (resize units)
          myid
        >>= λ es. some (
            members arrangement sizes units nunits myid
              (dims_of sizes dists units bs (blocks_loop sizes bs))
              es))
unfolding pattern
pattern_steps arrangement sizes dists units bs nunits myid eb hb =
    rw (eb, pattern) (rw (blockspec_lem sizes bs hb) refl)

built_of :
    (o : Option (List ℕ)) (f : List ℕ → BlockPattern) {p : BlockPattern}
    → (o >>= λ es. some (f es)) ≡ some p
    → (es : List ℕ) × (o ≡ some es) × (f es ≡ p)
built_of none f h = absurd (cc)
built_of (some es) f h = (es, refl, some-injective _ _ h)

-- For as many extents of the team as of the array, none of them 0, and where the block sizes that
-- initialize_blocksizespec answers are not 0, a pattern that the constructor answers has the
-- members of a one-dimensional pattern in each dimension, the extents of the array and of the
-- team's specification, the size of the team, whatever it is, and as its local layout the numbers
-- of elements of its unit.
pub pattern-IsBuilt :
    (arrangement : MemArrange) (sizes : List ℕ) (dists : List Distribution) (units bs : List ℕ)
    (nunits myid : ℕ) (p : BlockPattern)
    → length units ≡ length sizes
    → AllPositive units
    → initialize_blocksizespec (resize units).size sizes dists units ≡ some bs
    → AllPositive bs
    → pattern arrangement sizes dists units nunits myid ≡ some p
    → IsBuilt p × (sizes_of p.dims ≡ sizes) × (units_of p.dims ≡ units) × (p.nunits ≡ nunits)
pattern-IsBuilt arrangement sizes dists units bs nunits myid p l hu eb hb e =
    let size : 0 < (resize units).size = omega (arith, size_volume units, volume_pos units hu) in
    let loop = sym (blocksizespec_lem (resize units).size sizes dists units size) ∙ eb in
    let (reg, ss, us) = dims_agree sizes dists units bs loop l hu hb in
    let ds = dims_of sizes dists units bs (blocks_loop sizes bs) in
    let (es, ext, same) =
      built_of (initialize_local_extents nunits ds (resize units) myid)
        (λ es. members arrangement sizes units nunits myid ds es)
        (sym (pattern_steps arrangement sizes dists units bs nunits myid eb hb) ∙ e) in
    subst
      (λ q. IsBuilt q × (sizes_of q.dims ≡ sizes) × (units_of q.dims ≡ units) × (q.nunits ≡ nunits))
      same (members-IsBuilt arrangement sizes units nunits myid ds es reg ss us ext, ss, us, refl)
