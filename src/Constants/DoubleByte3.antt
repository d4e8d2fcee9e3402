-- ===== src/Constants/DoubleByte3.antt =====
-- lib/baileys_ex/protocol/constants.ex: double-byte token dictionary 3.
use mathlib.Core.List.{List, [], ◌∷◌, map}
use baileys_ex.Base.Text.{Text, codes}

unfoldable pub double_byte_tokens_3 : List Text
double_byte_tokens_3 = map codes (
    "1724" ∷ "profile_picture" ∷ "1071" ∷ "1314" ∷ "1605" ∷ "407" ∷ "990" ∷ "1710" ∷ "746"
    ∷ "pricing_model" ∷ "056" ∷ "059" ∷ "061" ∷ "1119" ∷ "6027" ∷ "65" ∷ "877" ∷ "1607" ∷ "05d"
    ∷ "917" ∷ "seen" ∷ "1516" ∷ "49" ∷ "470" ∷ "973" ∷ "1037" ∷ "1350" ∷ "1394" ∷ "1480" ∷ "1796"
    ∷ "keys" ∷ "794" ∷ "1536" ∷ "1594" ∷ "2378" ∷ "1333" ∷ "1524" ∷ "1825" ∷ "116" ∷ "309" ∷ "52"
    ∷ "808" ∷ "827" ∷ "909" ∷ "495" ∷ "1660" ∷ "361" ∷ "957" ∷ "google" ∷ "1357" ∷ "1565" ∷ "1967"
    ∷ "996" ∷ "1775" ∷ "586" ∷ "736" ∷ "1052" ∷ "1670" ∷ "bank" ∷ "177" ∷ "1416" ∷ "2194" ∷ "2222"
    ∷ "1454" ∷ "1839" ∷ "1275" ∷ "53" ∷ "997" ∷ "1629" ∷ "6028" ∷ "smba" ∷ "1378" ∷ "1410" ∷ "05c"
    ∷ "1849" ∷ "727" ∷ "create" ∷ "1559" ∷ "536" ∷ "1106" ∷ "1310" ∷ "1944" ∷ "670" ∷ "1297"
    ∷ "1316" ∷ "1762" ∷ "en" ∷ "1148" ∷ "1295" ∷ "1551" ∷ "1853" ∷ "1890" ∷ "1208" ∷ "1784" ∷ "7200"
    ∷ "05f" ∷ "178" ∷ "1283" ∷ "1332" ∷ "381" ∷ "643" ∷ "1056" ∷ "1238" ∷ "2024" ∷ "2387" ∷ "179"
    ∷ "981" ∷ "1547" ∷ "1705" ∷ "05e" ∷ "290" ∷ "903" ∷ "1069" ∷ "1285" ∷ "2436" ∷ "062" ∷ "251"
    ∷ "560" ∷ "582" ∷ "719" ∷ "56" ∷ "1700" ∷ "2321" ∷ "325" ∷ "448" ∷ "613" ∷ "777" ∷ "791" ∷ "51"
    ∷ "488" ∷ "902" ∷ "Asia/Almaty" ∷ "is_hidden" ∷ "1398" ∷ "1527" ∷ "1893" ∷ "1999" ∷ "2367"
    ∷ "2642" ∷ "237" ∷ "busy" ∷ "065" ∷ "067" ∷ "233" ∷ "590" ∷ "993" ∷ "1511" ∷ "54" ∷ "723"
    ∷ "860" ∷ "363" ∷ "487" ∷ "522" ∷ "605" ∷ "995" ∷ "1321" ∷ "1691" ∷ "1865" ∷ "2447" ∷ "2462"
    ∷ "NON_TRANSACTIONAL" ∷ "433" ∷ "871" ∷ "432" ∷ "1004" ∷ "1207" ∷ "2032" ∷ "2050" ∷ "2379"
    ∷ "2446" ∷ "279" ∷ "636" ∷ "703" ∷ "904" ∷ "248" ∷ "370" ∷ "691" ∷ "700" ∷ "1068" ∷ "1655"
    ∷ "2334" ∷ "060" ∷ "063" ∷ "364" ∷ "533" ∷ "534" ∷ "567" ∷ "1191" ∷ "1210" ∷ "1473" ∷ "1827"
    ∷ "069" ∷ "701" ∷ "2531" ∷ "514" ∷ "prev_dhash" ∷ "064" ∷ "496" ∷ "790" ∷ "1046" ∷ "1139"
    ∷ "1505" ∷ "1521" ∷ "1108" ∷ "207" ∷ "544" ∷ "637" ∷ "final" ∷ "1173" ∷ "1293" ∷ "1694" ∷ "1939"
    ∷ "1951" ∷ "1993" ∷ "2353" ∷ "2515" ∷ "504" ∷ "601" ∷ "857" ∷ "modify" ∷ "spam_request"
    ∷ "p_121_aa_1101_test4" ∷ "866" ∷ "1427" ∷ "1502" ∷ "1638" ∷ "1744" ∷ "2153" ∷ "068" ∷ "382"
    ∷ "725" ∷ "1704" ∷ "1864" ∷ "1990" ∷ "2003" ∷ "Asia/Dubai" ∷ "508" ∷ "531" ∷ "1387" ∷ "1474"
    ∷ "1632" ∷ "2307" ∷ "2386" ∷ "819" ∷ "2014" ∷ "066" ∷ "387" ∷ "1468" ∷ "1706" ∷ "2186" ∷ "2261"
    ∷ "471" ∷ "728" ∷ "1147" ∷ "1372" ∷ "1961" ∷ [])
