-- ===== src/Index/Kinds.antt =====
-- The two kinds of bitmap in the file of an index, by their files.
use high_dimensional_flow_re.Base.{ℕ, ◌≡◌, List, length, some}
use high_dimensional_flow_re.UvBidBitmap.{UvBidBitmap, new_uv_bid_bitmap}
use high_dimensional_flow_re.PvBidBitmap.{PvBidBitmap, new_pv_bid_bitmap}
use high_dimensional_flow_re.UvBidBitmap
use high_dimensional_flow_re.PvBidBitmap
use high_dimensional_flow_re.Index.Stored.{Stored}

module _ (procs threads : ℕ) (fresh : ℕ → List ℕ)
    (fresh_length : (n : ℕ) → length (fresh n) ≡ n) where
  abbrev pub pv_stored : Stored PvBidBitmap
  pv_stored = record {
    dump = PvBidBitmap.dump;
    load = λ file. PvBidBitmap.load fresh (new_pv_bid_bitmap procs threads) (some file);
    image = PvBidBitmap.Files.pv_image;
    loaded = λ b. PvBidBitmap.Files.with_threads b (new_pv_bid_bitmap procs threads);
    Fits = PvBidBitmap.Files.IsStorable;
    dumps = PvBidBitmap.Files.dump-pv_image;
    loads = λ b rest.
        PvBidBitmap.Files.load-pv_image fresh fresh_length b (new_pv_bid_bitmap procs threads) rest;
  }

  abbrev pub uv_stored : Stored UvBidBitmap
  uv_stored = record {
    dump = UvBidBitmap.dump;
    load = λ file. UvBidBitmap.load fresh (new_uv_bid_bitmap procs threads) (some file);
    image = UvBidBitmap.Files.uv_image;
    loaded = λ b. UvBidBitmap.Files.with_threads b (new_uv_bid_bitmap procs threads);
    Fits = UvBidBitmap.Files.IsStorable;
    dumps = UvBidBitmap.Files.dump-uv_image;
    loads = λ b rest.
        UvBidBitmap.Files.load-uv_image fresh fresh_length b (new_uv_bid_bitmap procs threads) rest;
  }
