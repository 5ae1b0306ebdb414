-- ===== src/Session/Lengths/MapSince20080401.antt =====
-- pkg/session/lengths_map.go, lines 1177 to 1320: assignments of `populateMapLengths`.
use rathena_client.Shared.{List, [], ◌∷◌, pos, negsuc}
use rathena_client.Session.Lengths.Blocks.{Block}

abbrev pub map_since_20080401 : List Block
map_since_20080401 =
    (
      20080401,
      (0x0301, negsuc 0)
          ∷ (0x0302, negsuc 0)
          ∷ (0x0303, negsuc 0)
          ∷ (0x0304, negsuc 0)
          ∷ (0x0305, negsuc 0)
          ∷ (0x0306, negsuc 0)
          ∷ (0x0307, negsuc 0)
          ∷ (0x0308, negsuc 0)
          ∷ (0x0309, negsuc 0)
          ∷ (0x030A, negsuc 0)
          ∷ (0x030B, negsuc 0)
          ∷ (0x030C, negsuc 0)
          ∷ (0x030D, negsuc 0)
          ∷ (0x030E, negsuc 0)
          ∷ (0x030F, negsuc 0)
          ∷ (0x0310, negsuc 0)
          ∷ (0x0311, negsuc 0)
          ∷ (0x0312, negsuc 0)
          ∷ (0x0313, negsuc 0)
          ∷ (0x0314, negsuc 0)
          ∷ (0x0315, negsuc 0)
          ∷ (0x0316, negsuc 0)
          ∷ (0x0317, negsuc 0)
          ∷ (0x0318, negsuc 0)
          ∷ (0x0319, negsuc 0)
          ∷ (0x031A, negsuc 0)
          ∷ (0x031B, negsuc 0)
          ∷ (0x031C, negsuc 0)
          ∷ (0x031D, negsuc 0)
          ∷ (0x031E, negsuc 0)
          ∷ (0x031F, negsuc 0)
          ∷ (0x0320, negsuc 0)
          ∷ (0x0321, negsuc 0)
          ∷ (0x0322, negsuc 0)
          ∷ (0x0323, negsuc 0)
          ∷ (0x0324, negsuc 0)
          ∷ (0x0325, negsuc 0)
          ∷ (0x0326, negsuc 0)
          ∷ (0x0327, negsuc 0)
          ∷ (0x0328, negsuc 0)
          ∷ (0x0329, negsuc 0)
          ∷ (0x032A, negsuc 0)
          ∷ (0x032B, negsuc 0)
          ∷ (0x032C, negsuc 0)
          ∷ (0x032D, negsuc 0)
          ∷ (0x032E, negsuc 0)
          ∷ (0x032F, negsuc 0)
          ∷ (0x0330, negsuc 0)
          ∷ (0x0331, negsuc 0)
          ∷ (0x0332, negsuc 0)
          ∷ (0x0333, negsuc 0)
          ∷ (0x0334, negsuc 0)
          ∷ (0x0335, negsuc 0)
          ∷ (0x0336, negsuc 0)
          ∷ (0x0337, negsuc 0)
          ∷ (0x0338, negsuc 0)
          ∷ (0x0339, negsuc 0)
          ∷ (0x033A, negsuc 0)
          ∷ (0x033B, negsuc 0)
          ∷ (0x033C, negsuc 0)
          ∷ (0x033D, negsuc 0)
          ∷ (0x033E, negsuc 0)
          ∷ (0x033F, negsuc 0)
          ∷ (0x0340, negsuc 0)
          ∷ (0x0341, negsuc 0)
          ∷ (0x0342, negsuc 0)
          ∷ (0x0343, negsuc 0)
          ∷ (0x0344, negsuc 0)
          ∷ (0x0345, negsuc 0)
          ∷ (0x0346, negsuc 0)
          ∷ (0x0347, negsuc 0)
          ∷ (0x0348, negsuc 0)
          ∷ (0x0349, negsuc 0)
          ∷ (0x034A, negsuc 0)
          ∷ (0x034B, negsuc 0)
          ∷ (0x034C, negsuc 0)
          ∷ (0x034D, negsuc 0)
          ∷ (0x034E, negsuc 0)
          ∷ (0x034F, negsuc 0)
          ∷ (0x0350, negsuc 0)
          ∷ (0x0351, negsuc 0)
          ∷ (0x0352, negsuc 0)
          ∷ (0x0353, negsuc 0)
          ∷ (0x0354, negsuc 0)
          ∷ (0x0355, negsuc 0)
          ∷ (0x0356, negsuc 0)
          ∷ (0x0357, negsuc 0)
          ∷ (0x0358, negsuc 0)
          ∷ (0x0359, negsuc 0)
          ∷ (0x035A, negsuc 0)
          ∷ [],
    )
    ∷ (
      20080527,
      (0x035B, negsuc 0)
          ∷ (0x035C, pos 2)
          ∷ (0x035D, negsuc 0)
          ∷ (0x035E, pos 2)
          ∷ (0x035F, negsuc 0)
          ∷ (0x0389, negsuc 0)
          ∷ [],
    )
    ∷ (
      20080820,
      (0x040C, negsuc 0)
          ∷ (0x040D, negsuc 0)
          ∷ (0x040E, negsuc 0)
          ∷ (0x040F, negsuc 0)
          ∷ (0x0410, negsuc 0)
          ∷ (0x0411, negsuc 0)
          ∷ (0x0412, negsuc 0)
          ∷ (0x0413, negsuc 0)
          ∷ (0x0414, negsuc 0)
          ∷ (0x0415, negsuc 0)
          ∷ (0x0416, negsuc 0)
          ∷ (0x0417, negsuc 0)
          ∷ (0x0418, negsuc 0)
          ∷ (0x0419, negsuc 0)
          ∷ (0x041A, negsuc 0)
          ∷ (0x041B, negsuc 0)
          ∷ (0x041C, negsuc 0)
          ∷ (0x041D, negsuc 0)
          ∷ (0x041E, negsuc 0)
          ∷ (0x041F, negsuc 0)
          ∷ (0x0420, negsuc 0)
          ∷ (0x0421, negsuc 0)
          ∷ (0x0422, negsuc 0)
          ∷ (0x0423, negsuc 0)
          ∷ (0x0424, negsuc 0)
          ∷ (0x0425, negsuc 0)
          ∷ (0x0426, negsuc 0)
          ∷ (0x0427, negsuc 0)
          ∷ (0x0428, negsuc 0)
          ∷ (0x0429, negsuc 0)
          ∷ (0x042A, negsuc 0)
          ∷ (0x042B, negsuc 0)
          ∷ (0x042C, negsuc 0)
          ∷ (0x042D, negsuc 0)
          ∷ (0x042E, negsuc 0)
          ∷ (0x042F, negsuc 0)
          ∷ (0x0430, negsuc 0)
          ∷ (0x0431, negsuc 0)
          ∷ (0x0432, negsuc 0)
          ∷ (0x0433, negsuc 0)
          ∷ (0x0434, negsuc 0)
          ∷ (0x0435, negsuc 0)
          ∷ [],
    )
    ∷ []
