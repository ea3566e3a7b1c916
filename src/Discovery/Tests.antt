-- ===== src/Discovery/Tests.antt =====
-- The matching at concrete inputs.
use onvif_simulator.Prelude.{[], ◌∷◌, ◌≡◌, refl, true, some}
use onvif_simulator.Text.{codes, trim_space, same_text}
use onvif_simulator.Discovery.{
  GoUrl, prefix_segments, path_segments, split_slashes, put_first, collect, is_dots, or_no_segments,
  drop_slashes, scope_path_prefix_match, urls_match,
}

-- Every text is the path of an address on one host.
abbrev toy_url : GoUrl
toy_url = record {
  lower = λ s. s;
  parse = λ s. some (record { scheme = codes "onvif"; host = codes "www.onvif.org"; path = s });
  equal_fold = same_text;
}

segments_of_path : path_segments (codes "/a//bc/") ≡ codes "a" ∷ codes "bc" ∷ []
unfolding path_segments drop_slashes split_slashes put_first collect is_dots same_text
    or_no_segments
segments_of_path = refl

-- A probe whose path has a part of dots matches every path.
dots_match : scope_path_prefix_match toy_url (codes "/x/../y") (codes "/a") ≡ true
unfolding scope_path_prefix_match urls_match path_segments drop_slashes split_slashes put_first
    collect is_dots same_text or_no_segments prefix_segments trim_space
dots_match = refl
