-- ===== src/Gsm7/Tables.antt =====
-- The maps of data/7bit.go between runes and septets: association lists with their keys first.
use gosmpp.Prelude.{ℕ, List, [], ◌∷◌, Option, none, some, ◌==◌, if◌then◌else◌}

abbrev pub Table : Type 0
Table = List (ℕ × ℕ)

-- `v, ok := table[k]`
unfoldable pub lookup : Table → ℕ → Option ℕ
lookup [] k = none
lookup ((a, b) ∷ l) k = if a == k then some b else lookup l k

abbrev pub forward_lookup : Table
forward_lookup =
    (64, 0)
    ∷ (163, 1)
    ∷ (36, 2)
    ∷ (165, 3)
    ∷ (232, 4)
    ∷ (233, 5)
    ∷ (249, 6)
    ∷ (236, 7)
    ∷ (242, 8)
    ∷ (199, 9)
    ∷ (10, 10)
    ∷ (216, 11)
    ∷ (248, 12)
    ∷ (13, 13)
    ∷ (197, 14)
    ∷ (229, 15)
    ∷ (916, 16)
    ∷ (95, 17)
    ∷ (934, 18)
    ∷ (915, 19)
    ∷ (923, 20)
    ∷ (937, 21)
    ∷ (928, 22)
    ∷ (936, 23)
    ∷ (931, 24)
    ∷ (920, 25)
    ∷ (926, 26)
    ∷ (198, 28)
    ∷ (230, 29)
    ∷ (223, 30)
    ∷ (201, 31)
    ∷ (32, 32)
    ∷ (33, 33)
    ∷ (34, 34)
    ∷ (35, 35)
    ∷ (164, 36)
    ∷ (37, 37)
    ∷ (38, 38)
    ∷ (39, 39)
    ∷ (40, 40)
    ∷ (41, 41)
    ∷ (42, 42)
    ∷ (43, 43)
    ∷ (44, 44)
    ∷ (45, 45)
    ∷ (46, 46)
    ∷ (47, 47)
    ∷ (48, 48)
    ∷ (49, 49)
    ∷ (50, 50)
    ∷ (51, 51)
    ∷ (52, 52)
    ∷ (53, 53)
    ∷ (54, 54)
    ∷ (55, 55)
    ∷ (56, 56)
    ∷ (57, 57)
    ∷ (58, 58)
    ∷ (59, 59)
    ∷ (60, 60)
    ∷ (61, 61)
    ∷ (62, 62)
    ∷ (63, 63)
    ∷ (161, 64)
    ∷ (65, 65)
    ∷ (66, 66)
    ∷ (67, 67)
    ∷ (68, 68)
    ∷ (69, 69)
    ∷ (70, 70)
    ∷ (71, 71)
    ∷ (72, 72)
    ∷ (73, 73)
    ∷ (74, 74)
    ∷ (75, 75)
    ∷ (76, 76)
    ∷ (77, 77)
    ∷ (78, 78)
    ∷ (79, 79)
    ∷ (80, 80)
    ∷ (81, 81)
    ∷ (82, 82)
    ∷ (83, 83)
    ∷ (84, 84)
    ∷ (85, 85)
    ∷ (86, 86)
    ∷ (87, 87)
    ∷ (88, 88)
    ∷ (89, 89)
    ∷ (90, 90)
    ∷ (196, 91)
    ∷ (214, 92)
    ∷ (209, 93)
    ∷ (220, 94)
    ∷ (167, 95)
    ∷ (191, 96)
    ∷ (97, 97)
    ∷ (98, 98)
    ∷ (99, 99)
    ∷ (100, 100)
    ∷ (101, 101)
    ∷ (102, 102)
    ∷ (103, 103)
    ∷ (104, 104)
    ∷ (105, 105)
    ∷ (106, 106)
    ∷ (107, 107)
    ∷ (108, 108)
    ∷ (109, 109)
    ∷ (110, 110)
    ∷ (111, 111)
    ∷ (112, 112)
    ∷ (113, 113)
    ∷ (114, 114)
    ∷ (115, 115)
    ∷ (116, 116)
    ∷ (117, 117)
    ∷ (118, 118)
    ∷ (119, 119)
    ∷ (120, 120)
    ∷ (121, 121)
    ∷ (122, 122)
    ∷ (228, 123)
    ∷ (246, 124)
    ∷ (241, 125)
    ∷ (252, 126)
    ∷ (224, 127)
    ∷ []

abbrev pub forward_escape : Table
forward_escape =
    (12, 10)
    ∷ (94, 20)
    ∷ (123, 40)
    ∷ (125, 41)
    ∷ (92, 47)
    ∷ (91, 60)
    ∷ (126, 61)
    ∷ (93, 62)
    ∷ (124, 64)
    ∷ (8364, 101)
    ∷ []

abbrev pub reverse_lookup : Table
reverse_lookup =
    (0, 64)
    ∷ (1, 163)
    ∷ (2, 36)
    ∷ (3, 165)
    ∷ (4, 232)
    ∷ (5, 233)
    ∷ (6, 249)
    ∷ (7, 236)
    ∷ (8, 242)
    ∷ (9, 199)
    ∷ (10, 10)
    ∷ (11, 216)
    ∷ (12, 248)
    ∷ (13, 13)
    ∷ (14, 197)
    ∷ (15, 229)
    ∷ (16, 916)
    ∷ (17, 95)
    ∷ (18, 934)
    ∷ (19, 915)
    ∷ (20, 923)
    ∷ (21, 937)
    ∷ (22, 928)
    ∷ (23, 936)
    ∷ (24, 931)
    ∷ (25, 920)
    ∷ (26, 926)
    ∷ (28, 198)
    ∷ (29, 230)
    ∷ (30, 223)
    ∷ (31, 201)
    ∷ (32, 32)
    ∷ (33, 33)
    ∷ (34, 34)
    ∷ (35, 35)
    ∷ (36, 164)
    ∷ (37, 37)
    ∷ (38, 38)
    ∷ (39, 39)
    ∷ (40, 40)
    ∷ (41, 41)
    ∷ (42, 42)
    ∷ (43, 43)
    ∷ (44, 44)
    ∷ (45, 45)
    ∷ (46, 46)
    ∷ (47, 47)
    ∷ (48, 48)
    ∷ (49, 49)
    ∷ (50, 50)
    ∷ (51, 51)
    ∷ (52, 52)
    ∷ (53, 53)
    ∷ (54, 54)
    ∷ (55, 55)
    ∷ (56, 56)
    ∷ (57, 57)
    ∷ (58, 58)
    ∷ (59, 59)
    ∷ (60, 60)
    ∷ (61, 61)
    ∷ (62, 62)
    ∷ (63, 63)
    ∷ (64, 161)
    ∷ (65, 65)
    ∷ (66, 66)
    ∷ (67, 67)
    ∷ (68, 68)
    ∷ (69, 69)
    ∷ (70, 70)
    ∷ (71, 71)
    ∷ (72, 72)
    ∷ (73, 73)
    ∷ (74, 74)
    ∷ (75, 75)
    ∷ (76, 76)
    ∷ (77, 77)
    ∷ (78, 78)
    ∷ (79, 79)
    ∷ (80, 80)
    ∷ (81, 81)
    ∷ (82, 82)
    ∷ (83, 83)
    ∷ (84, 84)
    ∷ (85, 85)
    ∷ (86, 86)
    ∷ (87, 87)
    ∷ (88, 88)
    ∷ (89, 89)
    ∷ (90, 90)
    ∷ (91, 196)
    ∷ (92, 214)
    ∷ (93, 209)
    ∷ (94, 220)
    ∷ (95, 167)
    ∷ (96, 191)
    ∷ (97, 97)
    ∷ (98, 98)
    ∷ (99, 99)
    ∷ (100, 100)
    ∷ (101, 101)
    ∷ (102, 102)
    ∷ (103, 103)
    ∷ (104, 104)
    ∷ (105, 105)
    ∷ (106, 106)
    ∷ (107, 107)
    ∷ (108, 108)
    ∷ (109, 109)
    ∷ (110, 110)
    ∷ (111, 111)
    ∷ (112, 112)
    ∷ (113, 113)
    ∷ (114, 114)
    ∷ (115, 115)
    ∷ (116, 116)
    ∷ (117, 117)
    ∷ (118, 118)
    ∷ (119, 119)
    ∷ (120, 120)
    ∷ (121, 121)
    ∷ (122, 122)
    ∷ (123, 228)
    ∷ (124, 246)
    ∷ (125, 241)
    ∷ (126, 252)
    ∷ (127, 224)
    ∷ []

abbrev pub reverse_escape : Table
reverse_escape =
    (10, 12)
    ∷ (20, 94)
    ∷ (40, 123)
    ∷ (41, 125)
    ∷ (47, 92)
    ∷ (60, 91)
    ∷ (61, 126)
    ∷ (62, 93)
    ∷ (64, 124)
    ∷ (101, 8364)
    ∷ []
